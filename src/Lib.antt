-- ===== src/Lib.antt =====
-- A verification library of the distributed computation of dipole ensembles: a main node divides a
-- task's range of iterations among worker nodes, over RabbitMQ.
--
-- The parts, and the files that model them:
--   Outcome      utilLib/include/common/errorHandling.h: exceptions; how a call ends (a value, an
--                exception, or undefined behaviour).
--   Task         computationalLib/include/network_shared/networkTypes.h: TestSolveParam, a task with
--                its range of iterations, and SliceAway (slice_away); its JSON form is in Task.Json.
--   Valarray     the arithmetic of std::valarray<uint64_t> that the services use.
--   Continuous   utilLib/include/common/Parsers.h and Printers.h: containers as JSON.
--   Worker       mainNode/include/service/WorkerManagementService.h and its .cpp: the workers and
--                their speeds; AddNewNode, ConnectNode, DisconnectNode are add_new_node, connect_node,
--                disconnect_node, a state passed on with a reply.
--   MainNode     mainNode/src/service/MainNodeService.cpp: SendToExecution (send_to_execution), which
--                uses Worker and Task (MainNode.Dispatch, MainNode.Safety); its handlers are in MainNode.Handlers: ConnectNode and
--                DisconnectNode (connect_worker, disconnect_worker), Connect and Disconnect
--                (connect_publisher, disconnect_publisher).
--   Clock        utilLib/include/parallelUtils/ClockArray.h: timers that are started and stopped in
--                nested sections, keyed by source locations (Clock.Keys, Clock.Order).
--   ConnectionString  computationalLib/lib/network_shared/connectionString.cpp: PostgreSQLCStr and
--                AMQPSQLCStr, their setters and formats; UrlDecode.
--   Amqp         computationalLib/lib/network_shared/amqpCommon.cpp: AMQPService::Connect and Disconnect,
--                with the callbacks of the event loop as a list of events; ExtractHost.
--   Database     computationalLib/lib/network_shared/dbCommon.cpp and DbService.cpp: transactions, and
--                the requests of DbService (Database.Requests, Database.Service) over any database.
--   Numbers      FloatType of utilLib/include/common/sharedDeclarations.h: the operations on it, any
--                that there are; theorems about exact numbers ask for the laws of a commutative ring.
--   Dipoles      computationalLib/include/math_core/Dipoles.h and lib/math_core/Dipoles.cpp: the system
--                of equations of a set of dipoles (SetMatrixes is set_matrixes), its solution by halves
--                (Solve is solve), and GetFullFunction (Dipoles.Fields).
--   Meshes       utilLib/include/common/MeshCreator.h and its .cpp: the grid of directions and the
--                values on it (ConstructMeshes, ApplyFunction), its JSON (Meshes.Json), and its text
--                (PrintMesh and ParseMeshFrom are print_mesh and parse_mesh_from, in Meshes.Text).
--   Printing     utilLib/lib/common/printUtils.cpp, include/common/Printers.h and Parsers.h: delimiters,
--                formats, coordinates and solutions as text (Printing.Formats, Printing.Coordinates),
--                rows and matrices in a format of Eigen (Printing.Containers).
--   CompNode     computationalNode/src/service/CompNodeService.cpp: a worker's Connect and Disconnect
--                (connect_node_service, disconnect_node_service, in CompNode.Joining) over Amqp, and
--                its benchmark (run_benchmark), BenchmarkRunnerService.cpp (CompNode.Benchmark).
--   Json, Entities  the values of jsoncpp, and the classes of networkTypes.cpp to and from JSON.
--   Rest         computationalLib/lib/network_shared/restUtils.cpp and amqpRestService.cpp: the requests
--                to RabbitMQ's management interface (Rest.Service).
--   Enums        utilLib/include/common/enumUtils.h: the maps of enum tables; the tables themselves.
--   FileHandler  utilLib/lib/testingUtils/FileHandler.cpp: output streams by name.
--   Prelude      shared names, lists, dictionaries, machine words.
--
-- 64-bit numbers are natural numbers with the wrap-around written out. Unordered maps are association
-- lists, whose order stands for any order of iteration. The answers of RabbitMQ, of PostgreSQL, of the
-- workers and of the operating system, and the third-party libraries, are arguments of the functions
-- that use them; Eigen's products and solutions of systems are a record of operations, whose laws a
-- theorem names. The loops are structural recursions; the only fuel is the number of digits of a
-- printed number, ten for 32 bits and twenty for 64, which is enough.
--
-- Not modelled: the formatting of messages, threads inside libraries, the publishing and consuming of
-- messages by AMQP-CPP with the computation of the message callback, the controllers that pass requests
-- on to the services, the client with its plots, and the build.
pub mod Amqp
pub mod Clock
pub mod CompNode
pub mod ConnectionString
pub mod Continuous
pub mod Database
pub mod Dipoles
pub mod Entities
pub mod Enums
pub mod FileHandler
pub mod Json
pub mod MainNode
pub mod Meshes
pub mod Numbers
pub mod Outcome
pub mod Prelude
pub mod Printing
pub mod Rest
pub mod Task
pub mod Valarray
pub mod Worker
