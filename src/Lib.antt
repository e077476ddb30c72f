-- ===== src/Lib.antt =====
-- zdia is a Diameter (RFC 6733) server in C. Receiver threads read messages from connections
-- (receiver.c, conn.c), the server deals them out (server.c) to the queues (queue.c) of its worker
-- threads (worker.c), and a worker parses a message (msg.c, avp.c) by the dictionary (dict.c).
-- Containers (array.c) and allocation (common.c) serve them all.
--
-- The files, and the code that each is about:
--   Prelude       library names, tests on numbers, lists, wrap-around of machine words (size_t is
--                 64 bits), and `Run`, the outcome of C code: a value, a memory fault, `exit`, or
--                 a loop cut off by its fuel
--   Bytes         the bytes of an object; memcpy and memmove, as the C library documents them
--   Memory        common.c: zd_malloc, zd_realloc, zd_free over alloc_func and its like
--   Array         array.c: array_t as a block of bytes with an address; Array.Vector is what it
--                 promises, and Array.Refine a history of calls on it
--   Queue         queue.c: queue_t as a ring over a block; Queue.Fifo is what it promises
--   Host          what the machine decides: the byte order, and ntohl
--   Dict          dict_get_avp of dict.c; in its children, Dict.Types: the records of dict.h;
--                 Dict.Text: strcmp and the search for a name; Dict.Add: dict_new and what adds to a
--                 dictionary; Dict.Build: dict_build; Dict.Xml: xml_elem_start and xml_elem_end;
--                 Dict.Load: dict_add_dict, with Dict.Load.Document for what a file describes, and
--                 handle_all of Dict.Load.Trees for the handlers without their path of names
--   Avp           avp.c: avp_new_from, avp_decode; Avp.Wire lays out AVPs as the RFC does
--   Msg           msg.c: msg_new, msg_new_from, msg_parse_header, msg_parse_all
--   Dlist         list.c: the circular list, over a memory of the fields next and prev; in
--                 Dlist.Refine, a history of calls and the sequence that a list promises to be
--   System        the calls of the operating system that the files below make, and its open sockets
--   Tcp           tcp.c: tcp_create_bind, tcp_listen
--   Conn          conn.c: conn_recv over the operating system's recv; in Conn.Sockets, the rest of it
--   Server        server.c: server_dispatch; worker.c: worker_push_msg; event.h and ind.h; in
--                 Server.Start, server_new, worker_new, worker_start and worker_stop; in
--                 Server.Accept, server_start, server_thread, receiver_new and receiver_free
--   Receiver      receiver.c: the rounds of receiver_thread
--   Worker        worker.c: worker_msg_proc, worker_thread; in Worker.Shutdown, worker_stop and
--                 worker_free beside the thread, as the moves of threads on one state
--   Heap          which blocks are allocated, and common.c's zd_free over them
--   Free          what frees objects: array_free, avp_free, msg_free; in Free.Objects, queue_free,
--                 list_free, list_new, dict_free, dict_app_new, dict_app_free
--   Listing       test.c: what main prints of the dictionary
--   Main          test.c: main
--   Tests         a C library, a host and a network that keep the laws below, and runs on them
--
-- State is passed explicitly: an operation on `*arr` or `*q` returns its status beside the new
-- record. Names are the source's, less the prefix that the module gives (array_push_back is
-- Array.push_back). A pointer into an array's block is the block's address with an offset, and using
-- it on another block is a fault. A pointer between the dictionary's arrays is a slot number.
-- queue_push and queue_pop hold the mutex from first to last, so each is one step; a history of
-- calls is therefore a list of steps. The workers' queues in Server are bounded FIFOs of events, as
-- in Queue.Fifo.
--
-- Parameters, with the documented behaviour that theorems take as hypotheses: malloc and realloc
-- (Memory.IsLawful: sizes, and that realloc keeps the bytes; Memory.Grants: no failure below a
-- limit), ntohl and the host's byte order (Host), and recv (Conn.IsStream: bytes come in order and
-- none is lost; Conn.Closes: no bytes after the end). For dict.c they are strdup and atoi
-- (Dict.Text.Libc; Dict.Load.Short.CopiesText: a copy is as long as the text with its zero), qsort
-- (Dict.Build.Sorting and the argument of Array.Sort; Dict.Build.Kept.IsSorting: the same elements
-- in some order), and expat with the file, as the events and results that they give
-- (Dict.Load.Source). What the stack holds where dict.c sets no variable is a parameter too
-- (Dict.Xml.Attrs.Junk). The calls on sockets and threads are those of System, and System.HasTable
-- says which of them open and close a socket, and that accept does not return one that is open
-- already.
--
-- Fuel: array_find has a round for each element and one more, and the loop over the first four bytes
-- of a message has four. The loop of msg_parse_all and the others of receiver_thread take their fuel
-- as an argument, and so does the loop of dict_build over the parents of a type: what is enough stands
-- in the results on them, among their conditions. dict_add_dict has a round for each that the file
-- gives. The rounds of worker_thread and of server_thread, which have no end, are counted by an
-- argument.
--
-- An object that is freed is the addresses of its blocks with the pointers that the function
-- follows; its contents stand in the module of the component. A use of a block that is not allocated
-- is a fault, and so is a second free. A history of Worker.Shutdown is a list of moves: a step of the
-- worker's thread, a step of the thread that calls worker_stop or worker_free, or a push of a
-- receiver; a call of a queue's function is one step. A thread that waits stays where it is.
--
-- Not modelled: that the blocks of the dictionary's arrays move, so that pointers between them
-- dangle until the arrays are as long as they get; the allocations, which end the process where
-- they fail, of the avp_t of avp_new_from, of the msg_t of msg_new_from, of the array that
-- msg_parse_all pushes its AVPs onto, of receiver_new, of server_new and of worker_new with its
-- queue; server_free, which takes the addresses of slots for those of receivers and workers; two
-- threads in one operation, but for the queues, whose operations hold a mutex; what main does after
-- its listing; functions that do nothing (array_reserve, array_resize, array_swap, queue_resize,
-- server_init, server_stop, sender.c); log output other than the worker's lines.
pub mod Prelude
pub mod Bytes
pub mod Memory
pub mod Array
pub mod Queue
pub mod Host
pub mod Dict
pub mod Avp
pub mod Msg
pub mod Dlist
pub mod Conn
pub mod System
pub mod Tcp
pub mod Server
pub mod Receiver
pub mod Worker
pub mod Heap
pub mod Free
pub mod Listing
pub mod Main
pub mod Tests
