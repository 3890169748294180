-- ===== src/Lib.antt =====
-- Verification of nodepp, a C++ library for asynchronous programs: its containers, its converters
-- of text and bytes, and the structures that its event loop runs on.
--
-- Parts and files. Source paths are from the root of the repository.
--
-- - Utf: include/nodepp/utf.h. `decode` and `decode_unit` are the branches of the reading loops,
--   `encode` and `units` those of the writing loops; a null result is `none`. Utf.Read is the
--   reader that all loops are instances of, Utf.Points the code points, Utf.Lead the lead bytes.
-- - Range: get_slice_range and get_splice_range, which include/nodepp/array.h, string.h and queue.h
--   repeat, on signed bounds and a size. Utf, Array and Text stand on lists; a handle of the source
--   shares its buffer with its copies, and the operations modelled put a new buffer in place.
-- - Array: include/nodepp/array.h, `array_t`, an operation to a function of the same name
--   (`insert_fill` and `insert_array` are overloads of insert, `erase_range` of erase, `slice_from`
--   of slice, `splice_with` of splice; `append` is operator+, `some_of` and `none_of` are some and
--   none, `reverse_copy` is reverse).
-- - Text: include/nodepp/string.h, `string_t`, over bytes; it repeats the code of arrays, which it
--   uses here as the same functions. The NUL that ends a buffer is not part of the list.
-- - Encoder: include/nodepp/encoder.h, a module for each namespace. The width of a template's
--   integer is a parameter.
-- - Regex: include/nodepp/regex.h, the graph engine of `regex_t`. Regex.View is a string that
--   shares the buffer of another, with the byte behind it; Regex.Compile is `compile`, with a
--   result for -1, for a read of the null string and for fuel that is out; Regex.Match is
--   `_search`, in three functions for an item, a group and a sequence; Regex.Search is search and
--   search_all, Regex.Ops the other members, Regex.Once the namespace `regex`. The memory of the
--   groups is passed along.
-- - Path: include/nodepp/path.h, on Regex: a path is split by an expression, and Path.Sections is
--   what normalize and relative do with the sections. Path.Mime is the table of types.
-- - Url: include/nodepp/url.h, on Regex and Encoder.Hex.
-- - Bits: the operators &, | and ^ of words as arithmetic. Prelude: names of the libraries, tests,
--   lists over native numbers, integers.
-- - HashMap: include/nodepp/map.h, `map_t`. The trie of key bits leads to an address in the table
--   of buckets, 0 is nullptr, and a bucket holds the addresses of the cells of the queue of pairs.
--   operator[] returns the address of a cell, which assign writes and value reads; V() is an
--   argument. HashMap.Valid is the invariant, HashMap.Assoc what a map promises on the list of its
--   pairs. The walk takes one step for each of the 64 bits of a number. The number of a key and ==
--   are arguments, and HashMap.Keys has those of integers and strings.
-- - Query and Cookie: include/nodepp/query.h and include/nodepp/cookie.h, on Regex and HashMap: the
--   groups that an expression leaves in its memory are read two by two into a map of strings.
-- - Promise: include/nodepp/promise.h, `promise_t`: the flags of the state, the listeners by kind,
--   and the calls that have been made. What is done to a promise is a list of actions. The
--   callbacks are numbers and leave the promise alone.
-- - Queue: include/nodepp/queue.h, `queue_t`. The memory is a function from addresses to nodes, 0
--   is nullptr, and a node's sign is a Boolean. Queue.Chain is the invariant: the cells of the
--   queue, an address and a value each, form one chain with both links. Queue.Walk has the
--   operations that follow the links, Queue.Holds the list that a queue stands for.
-- - Channel: include/nodepp/channel.h, `channel_t`, on the queue, of which it uses Queue.Holds
--   alone; each operation is one step, since the source holds the mutex for it.
-- - Event: include/nodepp/event.h, `event_t`. A callback is a list of actions on the event and
--   whether it returns -1. The loop of an emission has fuel, since callbacks that add listeners can
--   keep it going for ever; the number of the listeners, old and added, is enough. A node that is
--   gone is a result of its own.
-- - Loop: include/nodepp/loop.h, the full engine of `loop_t`: the tasks that wait for a time.
--   `block` is the branch of normal_queue_next for a delay.
--
-- Bounds and fuel. Words have their width written out (`% 2 ^ w`). Sizes are below 2 ^ 63, so that
-- a negative long cast to ulong exceeds each index. Where the source keeps a size or an offset in
-- an int (find, the matches and the patterns of Regex) the definitions are for sizes at which none
-- wraps: fewer than 2 ^ 31 elements or bytes of an array or a pattern, fewer than 2 ^ 31 - 1 of a
-- value. The walks of Queue take the size of the queue. The loops of Utf that step by a varying
-- count take the length of their input as fuel, which is enough since each round takes at least one
-- element. Other loops are structural recursion. The match of an item takes fuel by the weight of
-- the item (Regex.Weight), and compile a multiple of the size of the pattern. In base 64 the inner
-- loop has fuel 3 since at most 12 bits wait when it starts.
--
-- Parameters. memcmp is a record of a function and the one fact that its description gives. The
-- number that sscanf reads is a function, of which Query.Rows uses the value at the text 0. The
-- equality of an element type and the comparison of a sort are arguments with named hypotheses. The
-- address of the process's shutdown flag, a key of pac, is an argument.
--
-- Not modelled: input and output by the operating system, the wrappers of OpenSSL and zlib,
-- template machinery, and the files that the inventory names as later work (JSON, dates, pointers,
-- observers).
pub mod Prelude
pub mod Bits
pub mod Utf
pub mod Range
pub mod Array
pub mod Text
pub mod Encoder
pub mod Regex
pub mod Path
pub mod Url
pub mod Promise
pub mod HashMap
pub mod Query
pub mod Cookie
pub mod Queue
pub mod Channel
pub mod Event
pub mod Loop
