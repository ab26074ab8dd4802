-- ===== src/Lib.antt =====
-- ctest, a unit-testing framework for C: a model of its execution side.
--
-- src/cli/main.c has src/exec/loader.c load the suites of test modules, and runs or lists them. The
-- loader executes a test case of a module and tells execution hooks how it goes. A runner gives it
-- the hooks: src/exec/direct_runner.c in its own process, src/exec/forking_runner.c in a child,
-- whose hooks write events to a pipe (src/exec/exec_events.c) that the parent reads beside the
-- output of the child (src/exec/output_reader.c). Either makes a result (src/exec/result.c) of what
-- it learns and hands it to a reporter (src/exec/console_reporter.c). Both are driven by
-- src/exec/runner_utils.c, which partitions tests and test cases and keeps to the reporters'
-- protocol.
--
-- Prelude.antt            shared names, lists over the native numbers, selections by a test.
-- Pipe.antt               read(2) as the pollers use it: the kernel grants some bytes or fails.
-- Suite.antt              include/ctest/exec/suite.h: the operation tables as functions of addresses.
-- Runner.antt             src/exec/runner_utils.c. Runner/Partition.antt has repartition_tests__ and
--                         repartition_testcases__ over the copied array with memmove and the index
--                         variables; Runner/Run.antt the loops of the three entry points;
--                         Runner/Trace.antt the reporter's protocol; Runner/Group.antt and
--                         Runner/Grouped.antt the order that a partition is to have.
-- Output.antt             src/exec/output.c; Output/Reader.antt is src/exec/output_reader.c.
-- ExecEvents.antt         src/exec/exec_events.c: ExecEvents/Writer.antt and ExecEvents/Reader.antt
--                         have its two halves, the reader as a state machine over its pointer,
--                         offset, capacity and callbacks. ExecEvents/Dropped.antt is about a message
--                         of an unknown type.
-- Result.antt             src/exec/result.c.
-- Loader.antt             src/exec/loader.c: Loader/Execute.antt has testcase_op_execute__ and
--                         dynamic_ops_abort__; a function of the test module is the sequence of its
--                         reports and aborts. Loader/Expected.antt says what the hooks are to hear.
--                         Loader/Load.antt has testcase_create__ and Loader/Load/Create.antt the rest of
--                         ctest_load_testsuite and the destructors, with what they take and give back; Loader/Load/Loaded.antt says what a
--                         suite that is loaded is to be, Loader/Load/Registered.antt makes it the
--                         Registry that the runners see.
-- TestingSuite.antt       src/exec/testing_testsuite.c: the execution of its test cases;
--                         TestingSuite/Create.antt makes and destroys the suite, and
--                         TestingSuite/Enumerated.antt says which tests it is to have.
-- ForkingRunner.antt      src/exec/forking_runner.c: ForkingRunner/Wait.antt has wait_for_child__,
--                         ForkingRunner/Child.antt the child's hooks, ForkingRunner/Testcase.antt the
--                         paths of the parent in runner_run_testcase__.
-- DirectRunner.antt       src/exec/direct_runner.c; DirectRunner/Descriptors.antt says what its calls do
--                         to the table of descriptors.
-- Signals.antt            src/exec/sig.c.
-- ConsoleReporter.antt    src/exec/console_reporter.c: wrap_output__; ConsoleReporter/Report.antt has
--                         what is printed, ConsoleReporter/States.antt the reporter of a test case.
-- Memory.antt             a block of memory as its bytes.
-- FailureStorage.antt     src/exec/failure.c, location.c, stacktrace.c and serialization.h: the size and
--                         the layout of a failure in one block, with LP64 sizes, as the writes to the
--                         block; FailureStorage/Relocate.antt has serialize and deserialize. What they
--                         are compared with is FailureStorage/Image.antt, the bytes of a failure, and
--                         FailureStorage/Read.antt, what is read through the pointers. With
--                         FailureStorage/Carried.antt they are the Storage that the events take.
-- CommandLine.antt        src/cli/main.c: the command run; CommandLine/Main.antt has the command ls and
--                         the dispatch of main, CommandLine/Freed.antt what is made and destroyed,
--                         CommandLine/Status.antt the exit status of run.
--
-- Loops that are not over a list run on fuel, `none` being fuel that ran out; the entry points of
-- runner_utils and wrap_output__ give them one round for each element and one more, which is proved
-- to be enough. The poll loop runs over what poll answers, and `none` there is a poll that has not
-- returned, or a crash. Addresses are numbers and NULL is an option's `none`; whether an allocation
-- or a system call succeeds is an argument. Counts of failures are taken as unbounded, since a C
-- `int` holds the number of test cases of any suite that fits in memory here; the 16-bit length of
-- a message wraps as it does in C, and so does the int that a format function of a failure returns:
-- from 2^31 bytes on it is negative, and what is said of the layout holds below. Numbers in messages
-- are little-endian, a stage has four bytes.
--
-- Not modelled: the texts of help and of errors in src/cli/main.c; the fixtures and examples; a run
-- of src/exec/direct_runner.c in which ctest_result_create_empty gives NULL, which is written
-- through; lines of 2^31 bytes and more on the console, whose length is cast to an int; and a failure
-- without a description on the console, which is made only where vsnprintf fails, and whose NULL
-- is read through.
pub mod Prelude
pub mod Suite
pub mod Runner
pub mod Pipe
pub mod Output
pub mod ExecEvents
pub mod Result
pub mod ForkingRunner
pub mod ConsoleReporter
pub mod Loader
pub mod TestingSuite
pub mod DirectRunner
pub mod Signals
pub mod CommandLine
pub mod FailureStorage
pub mod Memory
