-- ===== src/Lib.antt =====
-- A model of the BitTorrent client in src/: its parser of bencoded data, what is made of .torrent files
-- and of a tracker's answers, the messages of peers, and the choice of pieces.
--
-- The parts and how they interact. Bencoded text goes through the parser into a tree of elements
-- (src/bencoding/src/be_element_ref_parse.cpp). Two clients read such a tree by tables of keys: one
-- makes the metainfo of a torrent (be_torrent_file_parse.cpp), the other the response of a tracker
-- (be_tracker_response_parse.cpp). Peers are spoken to in messages of bytes
-- (src/bittorrent_client/torrent_messages.cpp), which the readers and writers of
-- src/small_utils/include/small_utils/utils_bytes.h take apart and put together. The pieces that are
-- asked for are chosen by PiecesToDownload in src/bittorrent_client/main.cpp, and a piece that is complete
-- is written to the files that it meets by FilesOnDisk of the same file. TorrentClient
-- (src/bittorrent_client/torrent_client.cpp) is made of a .torrent file and asks the trackers for peers, by
-- HTTP or by the UDP protocol of src/bittorrent_client/tracker_requests.cpp.
--
-- Base: numbers, tests, lists, results and bit fields that the other files share.
-- Bencode: Errors (be_errors.h), Elements (be_element_ref.h and its builders), Length (ParseLength of
-- utils_string.h), Cursor and Parser (`Parser` and the five entry points), Grammar (what text encodes
-- what element). Sound and Complete relate the parser to the grammar, Entry, Overrun and Refused state the
-- result.
-- Torrent: Values (be_parse_utils.h), Keys (KeyParser), Metainfo and File (the parsers of the values,
-- ParseInfo, ParseTorrentFileContent); Invoke, Encoded, Valid, Tables and Content hold the lemmas,
-- Promise the result.
-- Tracker: Response (be_tracker_response_parse.cpp) and Promise.
-- Wire: Endian (utils_endian.h), Bytes (utils_bytes.h), Messages (torrent_messages.h and .cpp);
-- Handshake, Framing, Received and Sent are about them.
-- Wire also has Endian64, the 64-bit words of utils_endian.h.
-- Download: Pieces (PieceState, PiecesToDownload), Account, Store and Sizes; Peer (TryDownloadPiecesFromPeer
-- as a state machine), Rounds (the coroutines of all peers, interleaved), Owned, Held and Kept (who has a
-- piece).
-- Announce: Messages (the messages of the UDP tracker protocol in tracker_requests.cpp) and Exchange
-- (AsyncConnect, AsyncAnnounce, UDP_TrackerAnnounce); Resume, Lengths, Layout, Promise and Served are about
-- them.
-- Client: Totals, Make, Peers, Requests and Announce (TorrentClient in torrent_client.cpp: its sizes, make,
-- RemoveDuplicates, build_tracker_requests, request_torrent_peers), PeerId (utils_bytes.cpp), Start
-- (TorrentPeer::start); Made, Distinct, Members and Promise are about them, Requested describes the requests to
-- trackers, Addresses and Built compare them with the code.
-- Files: Offsets and Iterate (FilesList in main.cpp), Disk (PhysicalFile and FilesOnDisk); Overwrite and
-- Contents say what the files hold, Locate, Layout, Search, Parts, Step, Loop, Written and Made have the
-- lemmas, Promise the result.
-- Examples: the theorems at concrete inputs.
--
-- Names are those of the source in snake_case: `parse_dictionary_only` is ParseDictionary, and
-- `parse_info_files` is ParseInfo_Files. A byte and a char are a number below 256. A string view is its
-- size and the bytes of it that lie in the buffer, so that a view past the end has fewer bytes than its
-- size. Words keep their wrap-around: `% 2 ^ 32`. An outcome is a `Result`; a failed assertion is a value
-- of its own (`assertion_failed`, or `none` of an Option), and so is a null pointer that is read. What a
-- reader of a stream gets is a list of bytes, after which the peer closes the connection.
--
-- The recursion of the parser runs on fuel, 2 * length + 3: every element takes at least one byte, unless an
-- address overflows, and no
-- more than one call of a loop stands between two elements. All other loops are structural.
--
-- GetRandomPeerId and the loop over the peers of a UDP answer run on fuel too, 21 for 20 bytes and one more
-- than the bytes left; AsyncConnect makes one round, as k_retry_N_max says.
--
-- An address is a 64-bit word and a buffer lies in the lower half of the addresses. The sum start_ + count in
-- consume_n is then below end_ for a count below the size of the data, and it is not for a larger count below 2^63.
-- For a count from 2^63 on the sum may wrap around, which C++ leaves undefined and which makes the program accept
-- strings outside the buffer or loop without end: the model ends there with `address_overflow`, and the theorems
-- about the parser and its clients are about runs that do not meet such a length. In the same way the model ends
-- with `copied_outside` where std::memcpy writes outside the buffer of a piece.
--
-- std::from_chars, std::lower_bound, std::sort and std::unique are defined as the C++ standard documents
-- them. The machine is little-endian, as the code's one branch of native_to_big assumes. Parameters: the
-- calls of the operating system on files (`create_new`, `write_at`, with `IsFileSystem` for what they
-- promise), the network, the timers and the random device (`Network`), the socket of a peer (`Socket`),
-- HTTP_GET and HTTPS_GET_NoVerification (`HttpGet`), the library CxxUrl, of which torrent_client.cpp has an
-- excerpt (`UrlLibrary`), and the digest of TinySHA1. A coroutine is a function of the state of the outside.
--
-- Not modelled: the HTTP client and the adapters of asio, the race of the timers in
-- AsyncReceiveWithTimeout, DownloadFromPeer, which runs start and then the download, the loop of rounds in
-- main, the progress output, the texts of errors, and what follows an address that overflows.
pub mod Base
pub mod Bencode
pub mod Wire
pub mod Torrent
pub mod Tracker
pub mod Download
pub mod Client
pub mod Announce
pub mod Files
pub mod Examples
