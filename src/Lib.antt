-- ===== src/Lib.antt =====
-- kushdb, a database engine that compiles queries and learns join orders while it executes them
-- (README.md). The program parses SQL (parse/, over the vendored grammar of third_party/), plans it
-- (plan/, with the tables of catalog/), translates the plan to an intermediate language (compile/,
-- khir/), lowers that to machine code (khir/asm, khir/llvm) and runs it (execution/) on the data
-- structures of runtime/. The development models the parts that carry logic of their own.
--
-- Prelude: names of the libraries, Boolean tests, lists with native indices, integers, tables.
-- Date (runtime/date.cc): BuildDate, DateBuilder::Build, SplitDate and ExtractYear are build_date,
--   build, split_date and extract_year, with the wrap-around of the 32-bit types written out.
--   Date.Split goes from a day number to a date and back, Date.Build the other way.
-- Join (runtime/skinner_join_executor.cc): a tuple is the list of its row numbers by table.
--   Join.Tuple has ComputeLastCompletedTuple (compute_last_completed_tuple) and the loops that
--   decrement a tuple, Join.Tree the progress tree, Join.State the class JoinState: join_state,
--   get_last_completed_tuple_idx and update are its constructor, GetLastCompletedTupleIdx and Update,
--   and a runtime_error is a result err. Join.Rank counts tuples in the order of a join,
--   Join.Completed, Join.State.Good, Steps, Path and Laws prove. Join.Playout has the random rest of
--   an order, UctNode::Playout and IsConnected, with the shuffle and the connections of the query as
--   parameters. All loops recurse on a list or count down.
-- Bucket (runtime/column_index_bucket.cc): a bucket is its memory, size and capacity. BucketInit,
--   BucketPushBack, GetBucketValue, FastForwardBucket, BucketListSortedIntersectionInit,
--   ...PopulateResult and ...PopulateResultFilter are bucket_init, bucket_push_back,
--   get_bucket_value, fast_forward, intersection_init, populate_result and populate_result_filter.
--   The branches of PopulateResult for one, two and more buckets are populate_one, populate_two and
--   populate_many. Each loop runs on fuel that exceeds the tuples left, so it ends by its own test.
--   A doubled capacity that is no int32_t is undefined in C++ and gives none here and in Vector; the
--   search gives undefined_position where its sum of two positions leaves int. What lies behind the
--   array of buckets is a parameter of the filter.
--   Bucket.Search, One, Two, Many and Least prove the loops, Whole the entry point.
-- Vector (runtime/vector.cc): create, grow, push_back, size, merge, merge_sort and sort are the
--   functions of the same names; merge_halves and copy_rest are the loops of Merge. The recursion of
--   MergeSort has as much fuel as there are elements. Vector.Merge and Sort prove the sort, Push the
--   growth.
-- Aggregate (runtime/aggregate_hash_table.cc): init, allocate_new_page, construct_entry, resize,
--   compute_block_idx, compute_block_offset and table_size are Init, AllocateNewPage, ConstructEntry,
--   Resize, ComputeBlockIdx, ComputeBlockOffset and Size. The hashes in the payload blocks are a
--   parameter. A probe has as much fuel as there are entries, the loop over a block more than it has
--   bytes. Aggregate.Probe proves the probe, Tuples, Found and Resize the rebuilt entries.
-- UnionFind (util/union_find.cc): find and union are Find and Union. The recursion of Find has fuel,
--   more than there are steps to the root. UnionFind.Roots has what a new parent does to the roots.
-- Permute (util/permute.cc): permutation_table is the table that the constructor of
--   PermutationTable fills, get_entry is GetEntry.
-- Khir is the intermediate language (khir/). Word has the unsigned integers by their bits,
--   Instruction what the formats share (khir/instruction.cc), Type1, Type2, Type3 and Type5 a format
--   each, with a function for each setter and reader, and Value the operands (khir/value.cc).
--   Fields has the proofs about a single field, Layout those about a format and any calls of its
--   setters. Opcode and ConstantOpcode are the enums of khir/opcode.h.
--   In the parts below an instruction is its opcode and its fields (Instr), not its 64 bits, and a
--   throw is a result err beside the state that the code leaves behind (Result), so that an
--   operation that changes the program and then throws has changed it.
-- Khir.TypeManager (khir/type_manager.cc): the types by number and the tables that find them, with
--   the LLVM types, their layout and their addresses as the record Llvm of parameters. Making has the
--   types that are made of others, the sizes and the offsets, Ids the proofs about the numbers.
-- Khir.Function (class FunctionBuilder of khir/program_builder.cc): the instructions, the blocks as
--   intervals of them, and the edges. Append and Returns have the proofs about single calls, Tiles,
--   Growing, Moving and Reach those about blocks in any sequence of calls, Edges those about
--   successors and predecessors.
-- Khir.Builder (class ProgramBuilder of khir/program_builder.cc): the functions, the constants
--   and the current function, with the constants of integers. Arith, Logic, Widen, Vec8, Flow,
--   Memory and Calls have an operation for each method, named as the method is, TypeOf the type
--   of a value, Types the calls of the type manager. Floats has those of doubles, with what the
--   processor computes of them as the record Doubles of parameters: f64_of_i8 to f64_of_i64 are
--   F64ConvI8 to F64ConvI64, i64_of_f64 is I64ConvF64. Where methods differ in the width only,
--   the width is an argument (Kind). A signed sum or product that leaves its type is undefined in
--   C++ where constants are folded; it wraps around here.
--   The proofs: Naming, Making and Constants are about constants, Machine is what the instructions
--   compute when they run, Wrap its numbers by their bits, Refining, Folding, Comparing, Truth,
--   Converting and Turning compare what is built with it, and Switching is about the current block
--   within one function, since making another function the current one is not guarded.
--
-- Not modelled: Build and Translate, which hand the program and its types to the backends; the choice
-- among join orders by rewards, which are floating point numbers; the other data structures of
-- runtime/, and the planner, compiler and backends. Input and output, the vendored parser and the
-- libraries that the program links are not modelled at all.
pub mod Prelude
pub mod Date
pub mod Bucket
pub mod Join
pub mod Vector
pub mod Khir
pub mod Aggregate
pub mod UnionFind
pub mod Permute
