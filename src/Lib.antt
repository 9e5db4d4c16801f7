-- ===== src/Lib.antt =====
-- A verification library for the C programs of this repository: the multiplayer game
-- (C-Multiplayer-game), the simulation of a traffic circle (Academic-tasks/Linux-multithreading) and
-- the ports of Haifa and Eilat (Academic-Projects/WIN32API-IPC-Multithreading). The three share no code.
--
-- The game, Game.antt, follows C-Multiplayer-game/src. Game/Protocol is common/protocol.c with the
-- control bytes of common/protocol.h, and Game/Types is server/types.h.
--
-- Its server is server/main.c. Game/State holds its static variables as the record `Server`, with the
-- board and the other arrays as functions of the index; a pointer to a player or a monster is its slot.
-- A handler of the updater thread returns a `Run`: it goes on, it calls `pthread_exit`, or it reads
-- through a pointer of the wrong kind (`fault`).
--   Game/Location, Game/Random    calculateNextLocation, random_direction_generator
--   Game/Updates                  create_symbolized_board, send_game_updates_handler
--   Game/Life                     mark_as_dead, check_game_over, wonGame, updateSuperPowers
--   Game/Players, Game/Monsters   handle_player_move, handle_monster_move
--   Game/Round, Game/Updater      check_for_clients_moves, advance_game, timer_handler; set_timer_signal
--   Game/Setup                    init_board, new_game, put_player_on_board
--   Game/Session                  handle_player_event and what it calls; Game/Session/Loop: epoll_setup
-- The moves, the rounds and the setup are joined by Game/Invariant: what the board and the records say
-- of one another. Its children are about what changes that, and Game/Invariant/Games about whole games.
-- A move empties a cell before it fills another, so the invariant allows for one cell, the hole, of
-- which nothing is known. It asks that each player in play has its slot as its index, which the source
-- never sets: there the theorems about it speak of games that only the player of slot 0 plays. A board
-- with more monsters than `monsters` has entries is no server but `none`. What the sockets, rand(3) and getrandom(2) answer are arguments. rand(3) is a
-- sequence of numbers, and getrandom(2) a sequence of full buffers; malloc(3) succeeds.
-- Game/Invariant/Coins is about the counter of the coins. A client is served by one event at a time,
-- `handle_player_event` of Game/Session/Events, on a `Session`: the server, and as `stray` the memory
-- that `players_info[-1]` names. It also knows whether `p_board` is still NULL, which makes the use of a
-- board a fault.
--
-- Its client is client/main.c and the keyboard of client/termios2.c. Game/Client/Updates has
-- receiveUpdates and printBoard, on the bytes that the socket holds, with the sizes of the reads and the
-- answers of poll(2) as arguments; Game/Client/Updates/Frames puts the bytes together as the server
-- writes them, and Game/Client/Updates/Wire has the bytes of the writes of send_game_updates_handler to
-- one client. On a connection that is closed behind those bytes a read leaves the buffer as it is.
-- Game/Client/Commands has the signal handler of the bot, start_keyboard_listener and
-- send_move_commands, which share `currentMove` and `last_sent_move`. Game/Client/Talk has
-- interactWithServer, round by round. The loop of receiveUpdates is cut by fuel: any fuel beyond the
-- number of bytes to come is enough.
--
-- The traffic circle, Circle.antt, follows traffic_cycle.c. Circle/Geometry has the functions of rows
-- and columns, Circle/Cars initCar and the changes of a car, Circle/Threads the loop of moveCar as
-- steps from one mutex to the next, and the birth of a car, and Circle/Print printBoard. Circle/Ring
-- numbers the sixteen border cells in the order of the traffic. Circle/Exclusion says who is where and
-- holds which mutex, and Circle/Exclusion/Runs has the runs: births and steps in any order. What the
-- memory of a car holds after its `free` is an argument.
--
-- The ports, Port.antt, follow HaifaPort/HaifaPort.c and EilatPort/EilatPort.c. Port/Haifa has the
-- exchange over the pipes: the number of vessels, the permission, and the numbers of the vessels that
-- sail there and back; Port/Haifa/Threads has its threads. Port/Numbers has isPrime and
-- generateNumberOfCranes, Port/Quay the critical sections of the barrier and the unloading quay, and
-- Port/Threads the threads Vessel and Crane, whose steps alternate in any order, once no crane has run
-- ahead of its semaphores. For Haifa, Eilat may send back vessels or not.
-- Port/Threads/Occupancy says which vessel is at which crane and how far that crane is;
-- Port/Threads/Starvation is about a crane whose thread has ended. The loop of
-- generateNumberOfCranes waits for a draw of rand(3), and is cut by fuel: any fuel beyond the first draw
-- that fits is enough.
--
-- Common.antt passes on the names that all parts use: Boolean tests on numbers (Common/Tests), arrays
-- as functions with weighted sums (Common/Family), small integers (Common/Int), tables of who has what
-- (Common/Ownership), prefixes of lists (Common/Lists), and atoi and `%d` (Common/Text). Loops are
-- recursions on the number of rounds that are left.
--
-- Not modelled: the inside of epoll, sockets, timers, clocks and terminal settings; the start and the
-- end of the processes and threads; the creation of Win32 objects; the trials in server/experiments.
-- Sleeps and messages to the console leave no trace.
mod Common
pub mod Game
pub mod Circle
pub mod Port
