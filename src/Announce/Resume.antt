-- ===== src/Announce/Resume.antt =====
-- Coroutines that go on after a call that succeeded.
use bittorrent_client.Base.{
  ℕ, ◌≤◌, ◌≡◌, refl, ap, ◌∙◌, Bool, true, Option, some, List, Result, ok, length, le→leb,
}
use bittorrent_client.Wire.Messages.{ClientError}
use bittorrent_client.Announce.Messages.{UdpAnnounceResponse}
use bittorrent_client.Announce.Exchange.{
  resume, co_parsed, co_parsed_response, Coroutine, async_receive_with_timeout, co_assert, when,
  Failure, Network,
}

module _ {W A B : Type 0} where
  pub resume-some : (k : A → Coroutine W B) (a : A) (w : W) → resume k (some (ok a, w)) ≡ k a w
  unfolding resume
  resume-some k a w = refl

  pub resume_ok :
      (k : A → Coroutine W B) {o : Option (Result Failure A × W)} {a : A} {w : W}
      {r : Option (Result Failure B × W)}
      → o ≡ some (ok a, w)
      → k a w ≡ r
      → resume k o ≡ r
  resume_ok k {a = a} {w = w} h e = ap (resume k) h ∙ resume-some k a w ∙ e

pub co_parsed_ok :
    {W A : Type 0} (p : Result ClientError A) (a : A) (w : W)
    → p ≡ ok a
    → co_parsed p w ≡ some (ok a, w)
co_parsed_ok p a w h = rw (h) refl

pub co_parsed_response_ok :
    {W : Type 0} (net : Network W) (p : Option (Result ClientError UdpAnnounceResponse))
    (m : UdpAnnounceResponse) (w : W)
    → p ≡ some (ok m)
    → co_parsed_response net p w ≡ some (ok m, w)
co_parsed_response_ok net p m w h = rw (h) refl

pub asserted : {W : Type 0} (b : Bool) (w : W) → b ≡ true → co_assert (when b) w ≡ some (ok tt, w)
asserted b w h = rw (h) refl

pub received :
    {W : Type 0} (net : Network W) (size timeout least : ℕ) (bytes : List ℕ) (w w' : W)
    → net.async_receive_from size timeout w ≡ (ok bytes, w')
    → least ≤ length bytes
    → async_receive_with_timeout net size timeout least w ≡ some (ok bytes, w')
unfolding async_receive_with_timeout
received net size timeout least bytes w w' h l =
    resume_ok _ (ap some h) (rw (le→leb least (length bytes) l) refl)

pub co_assert_ok :
    {W A : Type 0} (o : Option A) (a : A) (w : W) → o ≡ some a → co_assert o w ≡ some (ok a, w)
co_assert_ok o a w h = rw (h) refl
