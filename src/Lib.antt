-- ===== src/Lib.antt =====
-- Verification of the C and C++ programs of an operating-systems course.
--
-- lab6 is a small distributed system. A control process (lab6/control_node.c) keeps a binary tree of
-- compute processes (lab6/compute_node.c) in an array (lab6/structures/balanced_tree.c). Each
-- process has a socket to the process above it and at most two to its sons
-- (lab6/structures/mq_node.c). A request goes down the tree until it reaches the process that it
-- names; answers come up, with a code of lab6/errors/error_handler.h. Removing a node is a chain of
-- commands, of which the next is sent when the answer to the one before it arrives.
--
-- Base: lists, integers, texts and decimal numbers. C's int is ℤ with its range stated where it
-- matters, size_t is ℕ with its wrap-around written out in the tree, a C string is its bytes.
-- Lab6.BTree: b_tree as a record of the allocated array and its two sizes, one function for each of
-- balanced_tree.c; `none` is an access outside the array. Its children say what a tree holds (Live),
-- what the search loops find (Find), how sons and parents lie (Family), what removal does (Remove)
-- and how identifiers behave (Ids).
-- Lab6.RmList: rm_list.c over an explicit memory of nodes. Ring says how nodes are linked, Relink and
-- Change what the writes of an operation do to a ring, Holds what list the memory holds; Iterate,
-- Edit and Destroy are about the operations. The rounds that bound its loops are to be more than the
-- nodes of the list.
-- Lab6.Zmq, Lab6.HashMap: what the programs use of ZeroMQ and of the hash map, which are not part of
-- the repository: parameters with laws, and implementations for the runs in Lab6.Instances.
-- Lab6.MqNode: mq_node.c. Frames has messages on the wire, Children the two places for sons.
-- Lab6.Protocol: the codes. Lab6.ComputeNode: the handlers of compute_node.c; Loop is a round of its
-- main. Lab6.ControlNode: the commands and answers of control_node.c, its globals as a record; Chain
-- and Remove are the removal, Fuel counts its commands, Receive is the receiving thread and the
-- heartbeat.
--
-- lab2 is a child process that keeps the lines of its input that start with a capital letter:
-- Lab2.Child is lab2/child.c and lab2/d_string.c, Scan the reading of a line and Filter the loop.
--
-- lab3 averages 128-bit numbers of a file, which threads read in turns. Lab3.StringUtils is
-- lab3/string_utils.c, and RoundTrip its two conversions. Lab3.Workers is number_worker of
-- lab3/main.c: Chunks is about the numbers in a part of the file, Turns about the order of the reads.
-- Lab3.ArgsParsing is lab3/args_parsing.c, and Given what its settings are.
--
-- lab4 does the same as lab2 over shared memory: Lab4.Chunks is how lab4/main.c writes a line to that
-- memory, Lines what becomes of lines of different lengths. Lab4.Child is the handler of lab4/child.c;
-- Line is its loop, Accept what a line does, and Exchange what becomes of the lines of the parent,
-- where each chunk is taken before the next is written.
--
-- lab5 has two libraries with the same functions: Lab5.Gcd is gcd of lab5/lib1.c and lab5/lib2.c, and
-- Equivalence compares them. Lab5.Series is Pi of both, over any operations on floating-point numbers.
-- Lab5.Result says why there is no value, with a division by 0 apart from rounds that ran out.
-- Lab5.Programs is lab5/prog1.c, which is linked with one library, and lab5/prog2.c, which loads
-- either; Same compares what they print.
--
-- KP is a messenger in C++. Clients write requests to the server's pipe, and the server writes its
-- answer to the pipe that the request names. Kp.StringParser is KP/funcs/string_parser.cpp, which
-- both sides split texts with. Kp.Server is KP/server/server.cpp and KP/structs: a pointer to a user
-- or a chat is its index, since none is ever removed, the time is a parameter, and `none` is an
-- access that C++ leaves undefined. Its children are the commands (Commands, Messages, Sort), the
-- handling of a request (Requests), the invariant (Invariant, Preserve, PreserveChats, Reachable),
-- who is logged in (Logins, Sessions), and what a client receives (Polling, Delivery). Kp.Client is
-- KP/client/client.cpp: Handlers has the answers, Requests what one side writes and the other reads,
-- Served, Valid and Calls what the server can serve, EndToEnd the way of a message, Flaws what goes wrong.
-- Kp.Tui is KP/tui, with ncurses as lists of the texts that were written; Choice and Stays are about
-- the chosen chat. Kp.Messenger is KP/messenger.cpp and the key loop of KP/tui/tui.cpp: Screen, Runs,
-- Printing and Inputs say what the program shows and when it runs on. A list's indices and sizes are
-- taken not to pass the range of int.
--
-- Bounds and fuel: mqn_receive recurs on the slots of its array. A tree is taken to have at most
-- 2 ^ 57 nodes where its array grows, so that its bytes can be counted. The commands of a removal
-- that the control process carries out itself, and the messages that one look at a socket takes,
-- are bounded by fuel, with a result of its own for running out; each such command is one less in the
-- chains, and the messages of a look have no bound in the code. The loops of rm_list.c, of lab2's
-- child and of lab5's functions have rounds: those of the list and of the child say whether they
-- ended, and those of lab5 have a result of their own for running out. The int
-- sizes of the arrays of lab2 and lab4, and the int product in the loop of lab3, have no value where
-- they overflow, and the size of a read in lab3 is cut to an unsigned int.
--
-- Not modelled: in lab6 reading commands from the terminal, fork's child side (which is
-- compute_node.c), races between the threads of the control process, and the memory of strings.
-- In lab3 the arithmetic of long double is a parameter. In lab2 the parent process. In lab5
-- floating-point arithmetic is a parameter, and a text in place of a number is not modelled. In
-- lab4 the reading of lines, the set-up of the shared files, and a signal that comes while
-- another is handled. In the messenger the windows and the cursor of ncurses, the making of pipes
-- and reading from them, and races inside a step: the three threads of a client act in any order
-- of steps, and the program calls of a client print in a step after the client's own part of it.
pub mod Base
pub mod Kp
pub mod Lab2
pub mod Lab3
pub mod Lab4
pub mod Lab5
pub mod Lab6
