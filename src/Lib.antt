-- ===== src/Lib.antt =====
-- Verification of strans, an input method daemon for X11: a client sends keys over a socket, and the
-- daemon answers with text to commit, keeps a preedit and shows a window with candidates.
--
-- The parts of the program, and the files that model them:
--   * str.c, strings of at most 64 runes: Str.antt. A `Str` is the list of its first `n` runes. The
--     conversion routines of libc are the parameter `Utf` (Utf.antt) with the documented laws.
--   * trie.c, the transliteration maps: Trie.antt. Links are indices into the array of nodes; -1 is
--     `none`. Trie/Links to Trie/Insert are about the invariant that the nodes form a tree,
--     Trie/Lookup to Trie/Prefixes about what is read from it.
--   * strans.c, `mapget`, `maplookup`, `transmap`: Map.antt, with the record `MapFits` of what the
--     automata need of a map.
--   * ko.c, the Hangul automaton: Ko.antt and Ko/Tables.antt. Ko/Letters.antt says, apart from the
--     code, which letters a syllable is typed with.
--   * vi.c, tones on Vietnamese vowels: Vi.antt and Vi/Tables.antt. Vi/Accents.antt says, apart from the
--     code, where the tone of a word goes.
--   * hash.c and dict.c, the dictionaries and their thread: Hash.antt and Dict.antt. Hash/Seek.antt has
--     the chains as relations; Dict/Lines.antt says, apart from the code, what a dictionary file is.
--   * dat.h and strans.c, the languages: Lang.antt.
--   * strans.c and ipc.h, the engine: Im.antt has the state `im` and the steps (`show`, `reset`,
--     `commit`, `dotrans`), Key.antt the handler `keystroke`, Thread.antt `imthread` on a sequence of
--     keys and dictionary answers.
--   * srv.c and gtk/main.c, the bytes on the socket: Client.antt. The handlers of the GTK client:
--     Client/Gtk.antt, and with the engine behind it Client/Session.antt (a press) and Client/Talk.antt
--     (any sequence of events). xim/main.c, the XIM client: Xim.antt, and with the engine behind it
--     Xim/Session.antt. Client/Dial.antt is about the address on which server and clients meet.
--   * ibus.c, the bridge to IBus: Ibus.antt has the handlers of messages, Ibus/Watches.antt the two
--     tables, Ibus/Keys.antt the requests to the engine, Ibus/Loop.antt `ibusthread`, Ibus/Address.antt
--     the path of the address file, Ibus/Init.antt how the bus is opened.
--   * main.c, srv.c and the loops of the threads: System.antt. `Tick` is a step of one thread, `Step`
--     one of a thread or a new client, and `Reach` any sequence of them. System/Files.antt and
--     System/Startup.antt are about `threadmain` and the data files, System/Safe.antt about the
--     invariant, System/Measure.antt, System/Progress.antt and System/Settles.antt about the work that
--     is left, System/Replies.antt about the order of the responses, and System/Window.antt and
--     System/Shown.antt about what the window shows.
--   * bench/main.c, the benchmark: Bench.antt, with the engine at the other end of its socket.
--   * font.c and win.c, the window with the preedit and the candidates: Font.antt and Win.antt. An
--     image is the list of its pixels; what stb_truetype and X return are arguments. `putfont` looks
--     for its glyph each time in Font.antt, and keeps it in a cache in Font/Cache.antt. Font/Paints.antt
--     and Win/Picture.antt say, apart from the loops, which pixels the ink of a rune reaches and what
--     the window is a picture of.
--
-- The engine reads keys from the clients and answers from the dictionary thread. It calls the
-- automaton of its language (`trans`, `back`), which reads the language's map, and sends requests to
-- the dictionary thread and draw commands to the window. Sends are values here: each handler returns
-- what it sent. The state of the engine is its own, so a round is computed at once; in System.antt its
-- sends and its write then happen one by one, between the steps of the other threads. A send on
-- `drawc` waits while the channel holds four commands, one on `dictreqc` is dropped while that holds
-- four requests, and `keyc` and `dictresc` hand a message over when both sides are there. The window
-- takes every command there; Win/Bounds.antt says when its image is large enough for one.
--
-- Outcomes are of type `Run` (Run.antt): a value, a call of `die`, or an access outside an array.
-- A C `int` that may be negative is an `Option` or a 32-bit pattern; sums of runes wrap at 2 ^ 32,
-- and the hash at 2 ^ 64. The loops along chains of nodes (`find_loop`, `get_loop`, `set_loop`) run
-- on fuel, as much as there are nodes. A chain of trie nodes only leads to older siblings, and one of
-- the hash table only to newer nodes, which makes that enough. The loop of `dictlookup` has as much
-- fuel as there are bytes, and takes at least one in each round.
--
-- Files are a function from a path to lines. libdbus calls back while a watch is handled, in dispatch
-- and when a connection is let go of: what it calls, and what `poll` returns, is an argument of a round
-- (`Happens`). The engine behind the bridge is one `round` of Thread.antt, run when the key is sent. Coordinates of a glyph may be negative and
-- are in Base/Int.antt.
--
-- Not modelled: the system calls (in srv.c, main.c and bench/main.c), failing writes and closed
-- channels, the building of D-Bus texts (`appendibustext`), the creation of the window (`wininit`),
-- the registration with GTK and with X, the clock of the benchmark, and the copies of other projects
-- (stb_truetype.h, xim/xcb-imdkit, xim/xcb-util), since they call the system or a library and compute
-- nothing else. Allocation does not fail, and memory is
-- not freed.
--
-- Base.antt has what every module shares. Tests.antt has UTF-8 as a value of `Utf`, the theorems at
-- concrete inputs, and runs.
pub mod Base
pub mod Run
pub mod Utf
pub mod Str
pub mod Emit
pub mod Trie
pub mod Map
pub mod Ko
pub mod Vi
pub mod Hash
pub mod Lang
pub mod Dict
pub mod Im
pub mod Key
pub mod Thread
pub mod Client
pub mod Ibus
pub mod Xim
pub mod Font
pub mod Win
pub mod System
pub mod Bench
pub mod Tests
