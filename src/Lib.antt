-- ===== src/Lib.antt =====
-- Verification of the CSF_2025 course programs.
--
-- Five programs stand beside each other in the repository and share no code. Each has its part here.
--
-- - Base: what the components share. Lists stand for arrays and vectors, native numbers for unsigned
--   machine words with their wrap-around written as `% 2 ^ w`; Base/Int has the signed integers,
--   Base/Bits the bitwise operations, and Base/Text texts with the digits in them, `strtoul`, and in
--   Base/Text/Scan what `>>` and `scanf` read of them.
-- - BigInt: csf_assign01/bigint.cpp and bigint.h. A BigInt is its sign and its vector of 64-bit
--   words, the lowest first; BigInt/Value says which integer that is. BigInt.antt has the
--   constructor, the bits, `compare`, `operator+` and `operator-` (`plus`, `minus`), whose
--   calls of each other are unrolled; BigInt/Comparison has the six operators of bigint.h,
--   BigInt/Shift `operator<<`, BigInt/Product `operator*` and `div_by_2`, BigInt/Quotient
--   `operator/`, and BigInt/Print `to_hex` and `to_dec`. The binary search of `operator/` runs on
--   fuel, two more than the bits of the dividend's words (`rounds`), each round halving the
--   interval; `to_dec` on a round for each bit and one more.
-- - Cache: csf_assign03/cache_sim.cpp and cache_sim.h, with main.cpp in Cache/Arguments
--   (`parse_arguments`) and Cache/Program (`read_trace_file`, `main`), whose loop has as many
--   rounds as the input has characters, and one. A set is the list of its lines; an access outside
--   the vector of sets is `none`. Addresses are 32-bit words, the counters 64-bit words. A shift of an
--   address by 32 bits or more, which C++ does not define, is 0 in `parse_address` and ends `main`, and
--   whether there is memory for the vectors is a parameter of `main`.
-- - Sort: csf_assign04. Sort.antt has the sort of parsort.c and the test of is_sorted.c. A child
--   process sorts its range of the shared array before its parent goes on; `fork`, `waitpid`, `malloc`
--   and `qsort` are parameters, and Sort/Comparator has what a comparator promises `qsort` and what
--   `qsort` promises then. The recursion runs on fuel, and as many levels as the range has elements
--   are enough. Sort/Program has the main functions of parsort.c, is_sorted.c and gen_rand_data.c: a
--   file is its 64-bit values and the bytes behind the last whole one, and what `open`, `mmap` and the
--   other system calls answer is a parameter.
-- - Db: csf_assign05, the table server. Db.antt has message.cpp, Db/Encoding
--   message_serialization.cpp, Db/Store table.cpp, value_stack.cpp and the tables of server.cpp,
--   Db/Number what is used of `std::stoi` and `std::to_string`, Db/Connection the requests of
--   client_connection.cpp (its state and replies in Db/Connection/Replies), Db/Connection/Arithmetic
--   `arithmetic`, and Db/Connection/Request the loop `chat_with_client`; Db/Server has server.cpp and
--   server_main.cpp, with the clients that are accepted and the requests of their threads in turn as
--   the steps of a relation; Db/Client has get_value.cpp, set_value.cpp and incr_value.cpp, and
--   Db/Client/Served those programs and the server's loop together: each request is encoded, served
--   and its reply decoded. Db/Store/Abstract says what a table is for its users. Exceptions are values.
--   A function ends in a `Result`, which is also a thread that waits for a mutex, or a step that C++
--   leaves undefined. The mutex of a table is whether it is held: free in a new table, though the
--   source does not initialise it, and free after `unlock` whoever held it, where POSIX defines
--   nothing. `tables_mutex` is held only within one call and has no place in the state. A thread runs from one request to the next in
--   one step, as the only one that acts on the tables meanwhile.
-- - Draw: csf_assign02/c_drawing_funcs.c, on the structs of image.h and drawing_funcs.h: pixels in
--   Draw.antt, rectangles, circles, tiles and sprites in Draw/Shapes. Coordinates are signed, the width
--   and height unsigned, converted as the code does; sums and products of `int32_t` are exact, since C
--   leaves the others undefined, and the theorems on circles and sprites keep the numbers in range.
--   `draw_pixel` and `draw_sprite` read a pixel that an image does not have as 0. `draw_tile` copies without a test of its own, so an access outside of
--   an array is `none` there. Draw/ImageFile has image.c, with the PNG library as a parameter.
--   Draw/Input and Draw/Driver have c_driver.c: what `scanf` reads for a command, each command, the
--   loop, which runs for as many rounds as the input has characters and one, and `main`.
--
-- Not modelled: the assembly version of csf_assign02; the printing of counters and of messages to the
-- standard error, which is output; what the system does for a file, a socket, a process or a thread,
-- which is a parameter or an input; steps of two threads inside their requests; the unit tests; and the
-- copies of the CS:APP library, pnglite and tctest, which are other projects' code.
pub mod Base
pub mod BigInt
pub mod Cache
pub mod Sort
pub mod Db
pub mod Draw
