-- ===== src/Lib.antt =====
-- RamSQL: an in-memory SQL engine. SQL text goes from the driver (driver/) through the lexer and the
-- parser (engine/parser/) to the executors (engine/executor/), which call the operations of a
-- transaction in engine/agnostic/. This library models engine/agnostic (the data, the transactions,
-- and the planning and evaluation of queries), engine/parser (the lexer and the parser of all
-- statements), engine/executor (the executors of all statements) and the connection in driver/, so
-- that it runs from the text of a statement to its result.
--
-- The parts, and the code that each file is about:
--   Base         helpers: numbers, byte strings, maps, the outcomes of calls, state passing
--   Value        the values of a row, and the comparisons in engine/agnostic/predicate.go
--                (equal, greater, and Eval of GeqPredicate, LeqPredicate, LePredicate, NeqPredicate)
--   Tuple        engine/agnostic/tuple.go
--   Predicate    the functors and predicates of engine/agnostic/predicate.go: Eval, Type, Relation
--   Attribute    engine/agnostic/attribute.go: columns, their types, defaults and conversion
--   Index        engine/agnostic/index.go: HashIndex with Add, Remove, Get, Truncate, CanSourceWith
--   Relation     engine/agnostic/relation.go: NewRelation, CheckPrimaryKey, createIndex
--   Store        engine/agnostic/engine.go and schema.go: the heap that the transactions share, and
--                container/list by the addresses of its elements (Store/Rows)
--   Transaction  engine/agnostic/transaction.go and change.go: locks, changes, Commit, Rollback; the
--                statements on schemas and relations (Transaction/Statements); Insert
--                (Transaction/Insert)
--   Query        engine/agnostic/source.go and scanner.go (Query/Source); LimitSorter, OffsetSorter,
--                NaturalJoin and the selectors of predicate.go; Plan and Query of transaction.go for
--                one table (Query/Plan), which UPDATE and DELETE use as well, and with joiners and
--                sorters (Query/Tree); Query.Plan.query is Query of transaction.go without joiners and
--                sorters, an auxiliary of the theorems on Query/Tree; OrderBySorter, DistinctSorter, GroupBySorter and the order of
--                the sorters (Query/Order); Updater and Deleter with Update and Delete (Query/Modify)
--   Parser       engine/parser. Match and Lexer: lexer.go, each matcher as a function of the bytes that are left
--                and the last token. Tree: Decl of parser.go and the parser's own operations (next, is,
--                consumeToken, mustHaveNext, ...). Terms: names, values, types, lists, joins and ORDER
--                BY of parser.go. Statements: where.go, insert.go, delete.go, truncate.go, drop.go and
--                parseUpdate. Select: select.go. Create: create.go. Program: parse of parser.go and
--                ParseInstruction of interface.go. Tame: kinds of parsers, such as those that end and
--                those that move on, with the rules that the theorems on the statements use
--   Executor     engine/executor. Conditions: getPredicates, and, or, inExecutor, notInExecutor,
--                isExecutor and getAlias of tx.go. Values: the arguments of a statement, with
--                ToInstance and parseDate of engine/agnostic/attribute.go. Statement: Decl.Has of
--                engine/parser/parser.go, hasIfExists and hasIfNotExists. Rows: getValues, getSet and
--                insertIntoTableExecutor. Tables: parseAttribute of attribute.go, CREATE and DROP.
--                Select and Selectors: selectExecutor with getSelectedTables, getJoin, getSelector,
--                getDistinctSorter and orderbyExecutor. Modify: UPDATE, DELETE and TRUNCATE. Run:
--                opsExecutors, createExecutor, dropExecutor, and QueryContext, ExecContext, Commit and
--                Rollback of Tx
--   Driver       driver/conn.go, stmt.go and rows.go: a connection with its transaction and autocommit,
--                prepared statements and the rows of a result. Driver/Uri: Open and
--                parseConnectionURI of driver/driver.go
--   Tests        runs on small inputs
--
-- How the model follows the code. A call answers an Outcome: a value, an error, a panic, or a wait
-- that nothing ends. A Transaction with the heap behind it is a Session, and its methods are functions
-- from a session to an outcome and a session. Pointers to lists, relations and schemas are positions
-- in lists of the heap; an element of a list has an address that is never used again. A Go map is an
-- association list; where the code ranges over a map, the model takes the order of the list, and in
-- the plan of a query and in DISTINCT the order that a parameter gives. A
-- relation's mutex is a Boolean. The transactions run one at a time, so a lock that is held stays so.
--
-- The lexer and the parser are functions of what is left: the bytes from the position on, and the
-- tokens from the current one on. A read behind the end is the outcome panic. The lexer's letters,
-- digits and spaces are those of unicode on one byte. Error texts are left out, so that an error of
-- the parser is only its kind.
--
-- What is taken as given, as the record Runtime of Value: IEEE comparison and conversion of floats,
-- the methods of time.Time, the printing of floats and times, the clock, and the hash function. The
-- lexer takes a test for dates, which ParseInstruction makes from time.Parse, a parameter; the lexer's
-- termination uses that the empty text is no date, since no layout is empty. For the executor, the functions of
-- strconv that read a text, and time.Parse, are the record Texts of Executor/Values, and the package
-- sort and the order of maps the record Orders of Query/Order. parseConnectionURI takes
-- time.ParseDuration.
-- The conversion of a value to the type of its column is that of Go's package reflect (Attribute).
-- Integers of 64 bits are Go's: the counter of an attribute and the conversion of a uint64 wrap.
--
-- Bounds. The loop of the scanner runs on fuel, one more than the elements that its source holds, and
-- Query/Source/Laws shows that this is enough. The decimal text of an integer has at most twenty
-- digits, which every 64-bit integer fits. The loops of the lexer run on fuel of one more than the
-- bytes, those of the parser on one more than the tokens; where that ends, the outcome is blocked,
-- which then says that the loop of the code does not end. All other loops follow the structure of
-- their input.
--
-- Where getPredicates takes the table name off a condition it changes the declaration itself; each
-- condition is read once, so the model leaves the declaration as it is. A nil functor is a panic where
-- the predicate is made, and not where it is used.
--
-- The nodes of a plan point at each other. The tree of the joins follows the pointers, and a join
-- that points at itself is a leaf of its own, whose run and whose printing are the outcome panic; in
-- Go the stack overflows there, which the driver cannot recover from as it does from a panic. A
-- scanner that two joins share is read once; the state of Query/Tree's run holds what the scanners
-- still give. A hash index holds the element itself, where index.go holds its address as a number.
--
-- Not modelled: the count of placeholders that the driver reports to database/sql; the command line
-- and the log; SubqueryNode, which only delegates and which nothing makes; the estimates of the nodes above the joins, which are only printed; LIKE, which the
-- code does not have; goroutines; text that is not used by the engine, such as String methods and the
-- printing of declarations.
mod Base
pub mod Value
pub mod Tuple
pub mod Predicate
pub mod Attribute
pub mod Index
pub mod Relation
pub mod Store
pub mod Transaction
pub mod Query
pub mod Parser
pub mod Executor
pub mod Driver
mod Tests
