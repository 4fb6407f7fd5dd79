-- ===== src/Lib.antt =====
-- A model of atframe_utils and what is proved of it: the write-ahead log, the read-write spin lock,
-- the timer wheel, the block cipher xxtea, the ring of slots, base64, query
-- strings and the map in the order of visits.
--
-- The write-ahead log, include/distributed_system (Wal)
--   Wal/Types, Wal/Laws      result codes, meta data, the callback table of wal_object.h, and what
--                            the client's callbacks are expected to do
--   Wal/Keys                 the reference view of a log: an ascending list of keys
--   Wal/Object               the state of wal_object, dispatch and redo of a log, removal of the
--                            oldest log
--   Wal/Object/Push          pusk_back_internal, pusk_back_internal_uncheck, emplace_back
--   Wal/Object/Gc            gc and remove_before
--   Wal/Object/Query         log_lower_bound, log_upper_bound, find_log, get_hash_code_before
--   Wal/Object/Storage       load, dump, allocate_log
--   The other files below Wal/Object hold proofs: Frame, Order, Bounds, Settle, Ignoring, Emplace,
--   Total and Chain for the pushes, GcLaws and Removed for the removals, QueryLaws for searches.
--   Wal/Subscriber           wal_subscriber.h: the table of subscribers, their heartbeat timers
--   Wal/Subscriber/Expired, Wal/Subscriber/Table
--                            get_first_expired; the entries that allocate and unsubscribe change
--   Wal/Publisher            wal_publisher.h: state, callbacks, listeners, removal of subscribers
--   Wal/Publisher/Broadcast, Wal/Publisher/Request
--                            broadcast and tick; subscriptions and requests to catch up
--   Wal/Publisher/Pending, Wal/Publisher/Sending, Wal/Publisher/Delivery, Wal/Publisher/CatchUp,
--   Wal/Publisher/Trimmed, Wal/Publisher/Holes, Wal/Publisher/Ticks
--                            the logs behind a key, what is sent in a broadcast and to a request,
--                            pushes between two broadcasts with the removals that follow them, the
--                            end of tick
--   Wal/Client               wal_client.h: received logs, holes and snapshots, heartbeats, tick
--   Wal/Client/Receiving, Wal/Client/Batches, Wal/Client/Total, Wal/Client/Ticks
--                            a batch received twice, the end of receive_logs and of tick
--   A log is a value of any type, and a log pointer is the log that it points to. Keys are numbers
--   under `<` and hash codes are numbers. Callbacks that the client may leave unset are Options.
--   An action or a patch returns its result, the patched log, the private data, and the logs that
--   it pushes back while it runs; it does not call the log otherwise. Calls of listeners and of
--   on_log_added and on_log_removed are recorded as events. std::lower_bound and std::upper_bound
--   are the partition points that the standard describes for ordered ranges.
--   The loop of emplace_back over its queue takes fuel: any fuel from the weight of the pushed log
--   on is enough, where the client's measure bounds what its callbacks push. The loops of gc,
--   remove_before and of the size limit take the number of logs as fuel, since each round but the
--   last removes one.
--   Subscribers are objects of a store under the numbers of their pointers, and a freed one is none;
--   the nodes of the timer list have numbers, which stand for iterators.
--   The calls of the publisher's send_snapshot, send_logs and subscribe_response are recorded, and
--   each callback of the publisher gives back the publisher as it leaves it. The publisher hears the
--   events of its log when the call of the log returns. A log that is taken out of the log while its
--   iterators are in use by a broadcast is not there. tick takes fuel for its rounds, of which each
--   but the last has an event, so that more fuel than the limit of events is enough; the same holds
--   for tick of wal_client. Durations are not negative, and no count of events overflows.
--   Not modelled: the registration of listeners, the construction of a publisher or a client.
--
-- The read-write spin lock, include/lock/spin_rw_lock.h (Lock)
--   Lock/RwLock              the status, the points of a thread between two atomic accesses, a step
--   Lock/RwLock/Safety       the invariant of all schedules
--   A step is one access of one thread in a sequential order; compare_exchange_weak may fail at any
--   time. A thread unlocks only what it has locked. read_lock is try_read_lock that is called again.
--
-- The timer wheel, include/time/jiffies_timer.h (Timer)
--   Timer                    the wheel with its default levels, init, add_timer, tick
--   Timer/Level              divisions by the length of a slot, the slot of a new timer
--   Timer/Due                a timer when the tick advances
--   Timer/Moves, Timer/Slots one timer's move, the loop of tick over one slot
--   Timer/Tick, Timer/Kept   the slots of a tick and the ticks of a call; no timer is lost
--   Timer/Fires, Timer/Runs  what a caller relies on; sequences of calls
--   Ticks are numbers, so a delay below 0, which counts as 1 as 0 does, is not there; a tick and the
--   number of calls do not overflow. A callback is recorded and does not call the wheel. The loop of
--   tick over a slot takes the number of its timers as fuel, which is enough since no timer is put
--   back into the slot that it comes from. Not modelled: remove_timer and flags from outside,
--   watchers, private data.
--
-- The block cipher, src/algorithm/xxtea.cpp (Xxtea)
--   Xxtea                    XXTEA_MX, the loops, xxtea_encrypt and xxtea_decrypt in place
--   Xxtea/Passes             steps on one word and their inverses
--   Xxtea/Inverse            the loops in terms of the steps, the round trip
--   Xxtea/Buffers            xxtea_setup and the calls with two buffers
--   Xxtea/Locality           encryption keeps to the words of its buffer
--   Xxtea/Bytes              bytes and words, the round trip of the calls with two buffers
--   A buffer of the calls in place is a function from positions to words, of which the first n are
--   used; that of the other calls is a function from positions to bytes, which a little-endian
--   machine reads as words. The key and the buffer of the calls in place are not null.
--
-- The ring of slots, include/data_structure/lock_free_array.h (Ring)
--   Ring                     the positions, push and pop at both ends, size, empty
--   Ring/Slots               the ring as the list of its slots
--   Used by one thread, where an exchange succeeds in the end. n is the length of data_, SIZE + 1.
--   The elements and uses by several threads are not modelled.
--
-- Base64, src/algorithm/base64.cpp (Base64)
--   Base64/Tables            the tables and their choice by mode
--   Base64                   base64_encode and base64_decode to buffers and to strings
--   Base64/Chars, Base64/Scanning, Base64/Lengths
--                            facts of the tables, the first pass of the decoder, the lengths
--   Base64/Buffers           what is written to a buffer, what is refused
--   Base64/Accepting, Base64/RoundTrip, Base64/Strings
--                            what was encoded is accepted and decoded
--   A source, a buffer or a string is the list of its bytes; size_t has 64 bits. A string that would
--   be resized to the greatest size_t, which throws, is none.
--
-- Query strings, src/string/tquerystring.cpp (Uri, Querystring)
--   Uri                      the tables, _encode_uri, _decode_uri and the functions of the namespace
--                            uri
--   Uri/RoundTrip, Uri/Written
--                            decoding what was encoded, the characters and lengths of both
--   Querystring/Items, Querystring/Members
--                            item_string, item_array, item_object: their data, parse, to_string
--   Querystring/Encode, Querystring/Decode
--                            encode of the items and of tquerystring; decode and decode_record
--   Querystring/Entries, Querystring/Rebuild, Querystring/Storable
--                            the map of an object; the leaves of a tree, parsed one by one
--   Querystring/Keys, Querystring/Records, Querystring/Refused
--                            one record: its keys, its value, what is refused
--   Querystring/Encoded, Querystring/Joined, Querystring/Leaves, Querystring/RoundTrip
--                            what encode writes, and decode on it
--   Querystring/Fuel, Querystring/Access
--                            the ends of the loops, reads behind changes of an array
--   A character is its code as an unsigned char, and a buffer is the list of its characters, which
--   ends where the caller's size or the memory ends. An item that is held by two containers is not
--   there, so an item is its data. The entries of an unordered_map are a list in the order of the
--   iteration, and a new one stands behind the others; the keys that parse goes through are the list
--   of those from its index on. The loops of decode and decode_record take the length of the text as
--   fuel, which is enough; where it runs out they give none.
--
-- The map in the order of visits, include/memory/lru_map.h (Lru)
--   Lru                      the list of the visits, the index of its nodes, every call
--   Lru/Keyed                lists of items with a key
--   Lru/Linked, Lru/Steps    the list and the index agree, and the changes that keep it so
--   Lru/Recency              the calls, on two maps and on plain lists of pairs
--   Lru/Refines, Lru/Ends, Lru/Positions, Lru/Ranges, Lru/Runs, Lru/Visits
--                            each call and sequences of calls against the plain list; find
--   A node of the list has a number that is never used again, which stands for its iterator; end()
--   is none. Keys are of any type with the equality that the map is given, values of any type.
--   An iterator that leads to no node, whose use the source leaves undefined, changes nothing. An
--   iterator that a call is given is that of a position, begin() with some steps, and a range has the
--   number of its nodes and one more as fuel, so that the test of the loop ends it. Each map numbers
--   its own nodes, so that swap takes the number along.
--
-- Base holds shared notation, tests on numbers and lists. Encryption, compression, logging, the
-- network and the file system are calls of other libraries and are not modelled.
pub mod Base
pub mod Wal
pub mod Lock
pub mod Timer
pub mod Uri
pub mod Xxtea
pub mod Querystring
pub mod Lru
pub mod Ring
pub mod Base64
