-- ===== src/Lib.antt =====
-- A model of CatSyn: the scheduler of its core with the lock, the allocator and the table that it
-- stands on, and the VapourSynth core filters, the C sources of VapStd, over the plugin interface that
-- Metalloporphyrin gives them; with the theorems that say what they do.
--
-- The core. A request for a frame (Output::get_frame of CatSyn/src/substrate.cpp) is a task for the
-- thread `maintainer`. It makes an instance for the frame and for all that the frame needs, and posts
-- the instances whose inputs have their products to the work queue. A worker takes one, calls the
-- filter's process_frame with the products of the inputs, and reports the instance; the maintainer then
-- posts the outputs that wait for nothing else, and the callback to the callback thread. A filter that
-- throws takes the instances that need its frame with it. Instances that no one needs are freed.
-- A filter's arguments and a frame's properties are tables; large blocks come from the pool.
--
-- The filters. A script calls a filter's create function (VSFunc::invoke of
-- Metalloporphyrin/src/func.cpp) with a map of arguments. The function reads its arguments (map.cpp),
-- takes references to its input clips, and makes a filter (createFilter of node.cpp) or reports an
-- error. The core asks the filter for frame n: its getframe function runs with arInitial, where it
-- requests frames of its inputs, and with arAllFramesReady, where it returns a frame
-- (VSFilter::get_frame_data and process_frame of node.cpp). When the filter goes, its free function
-- gives back what the create function took.
--
-- The files.
--   Core/Scheduler     CatSyn/src/substrate.cpp. State is the memory, the maintainer's tables, the
--                      queues and what each worker is at; Construct is construct, Maintain the thread
--                      maintainer with post_work and kill_tree, Work the threads worker and callbacker,
--                      and run the threads together, an event at a time in any order. Sweep, Total,
--                      Failure and Callbacks hold the proofs.
--   Core/Queue         the queue SCQueue of CatSyn/src/queue.h, an atomic operation at a time.
--   Core/Wedge         the lock Wedge of CatSyn/src/queue.h, an atomic operation at a time.
--   Core/Pool          class Pool of CatSyn/src/allostery/allostery.cpp; Blocks adds a program that asks
--                      for blocks and gives them back.
--   Core/Table         CatSyn/src/table.cpp; Maps compares it with Plugin/VsMap.
--   Core/Pathway       StepDescLess of CatSyn/src/pathway.cpp; Args is check_args.
--   Prelude            names and lemmas that all share; Prelude/Int is C's int and int64_t: integers
--                      with sums and products that wrap at 32 and 64 bits.
--   Plugin/Types       the structs and enums of VapStd/VapourSynth.h, node references, frames.
--   Plugin/VsMap       propGetInt, propGetNode, propNumElements, propSetInt, propDeleteKey of map.cpp.
--   Plugin/Action      a state with an early return and a crash; Plugin/Create is that monad over the
--                      node references and memory blocks that a create function holds, and Settles
--                      says of its outcome that nothing is leaked; Plugin/Fetch is the monad of
--                      getframe functions, and run_frame makes one output frame, where the core is a
--                      function from requests to frames.
--   Plugin/Helper      int64ToIntS and the small helpers of VapStd/VSHelper.h and filtershared.h.
--   Plugin/Rational    muldivRational of VapStd/VSHelper.h.
--   Plugin/Clips       the loops by which the filters take clips and numbers out of their arguments.
--   Plugin/Qsort       what the filters rely on of the C library's qsort; it is a parameter, and
--                      Plugin/InsertionSort is a sort that keeps the promises.
--   Reorder/*          VapStd/reorderfilters.c: a module per filter with its instance data, init,
--                      getframe, free and create functions, in the order of the source's statements;
--                      Laws and Frames below it hold the proofs, and Tests runs it. Shared has
--                      findCommonVi and compareInts, and Duration the frame durations.
--   Plugin/Picture     the planes and frames of Metalloporphyrin/src/frame.cpp: a plane is a list of rows
--                      of samples. Planes and Frames have the lemmas: when a plane or a frame has its
--                      size, what a filter wrote of it, and that samples decide it.
--   Simple/*           the filters of VapStd/simplefilters.c that move samples: Crop, AddBorders,
--                      Fields (SeparateFields), Weave (DoubleWeave), Flip (FlipVertical,
--                      FlipHorizontal, Turn180) and Transpose with VapStd/kernel/transpose.h and
--                      transpose.c, laid out as Reorder is; Sample has the tests' frames,
--                      and Inverse, Twice and Wraps set one filter over another or a filter's check
--                      beside what it then reads.
-- A function keeps its name in this spelling: trimCreate is trim_create, and what a create function
-- does in a longer branch or a loop stands in a definition of its own.
--
-- Choices of the core. A step of the maintainer is one event, and so is what a worker does between two
-- accesses of shared data; the order of memory is not modelled. The address of an instance is a number
-- that is not used again when the instance is freed, and the order of the addresses is a parameter. A
-- freed instance is not in memory: a write to it, and a worker that takes it or runs it, set a flag for
-- the crash; a read of its product finds none, and the work queue's heap takes its tick to be 0.
-- `construct` recurs on fuel, which is enough where it is more than a rank that falls from each frame to
-- those it needs; kill_tree likewise, with a rank that falls along the outputs. An exception is a number,
-- and so is a frame. The calls that reserve memory from the operating system succeed. The bytes of a
-- VideoInfo that StepDescLess compares are taken with the padding of their copies, as if that were the
-- same each time.
--
-- Choices of the filters. A memory block is counted, not addressed; what is stored in it is a value of
-- the model. A failed allocation is not modelled. C leaves the overflow of an int sum undefined; the
-- model wraps, as the compilers of the program do. The remainder of the least int64 by -1 is a trap in
-- muldivRational. The message that a filter reports is a string; where the source passes an array of its
-- own stack frame, which ends with the call, the string is what that array held. The one loop without a
-- bound in the data, Euclid's in muldivRational, runs on fuel of one more than the magnitude of the
-- divisor, which each round lowers.
-- A number of frames may be 0, for unknown, where the source allows it. Division by a clip number of 0
-- is left as the native division gives it. A plane has no stride and no bytes, a sample of any width is
-- one number; a read outside of a plane crashes the model, and so does a plane that a filter leaves
-- unwritten. How AddBorders turns a colour, a floating-point number, into a sample is a parameter. A
-- plane that Transpose writes is a function of row and column, read out when the loops are done; each
-- loop has as many rounds of fuel as its bound, and an unsigned sum in it does not wrap. A filter over a
-- filter asks the lower one for its frames as the core does, by `filtered`.
-- Transpose takes its SSE2 functions, which are compiler intrinsics, as a parameter of which nothing is
-- assumed.
--
-- Not modelled: the rest of simplefilters.c (ShufflePlanes, StackVertical and StackHorizontal,
-- BlankClip, AssumeFPS, FrameEval, ModifyFrame, transposeCreate with registerFormat, PEMVerifier,
-- PlaneStats, ClipToProp, PropToClip, SetFrameProp, SetFieldBased, SetMaxCPU), mergefilters.c, and
-- their kernels; the vector kernels (compiler intrinsics); the C++ filters (Expr, Lut, BoxBlur, Resize, Text;
-- floating point and generated machine code), plugin loading, the logger, and the vendored sources. The
-- model of the filters takes the core's answer to a request as a given function.
pub mod Prelude
pub mod Core
pub mod Plugin
pub mod Reorder
pub mod Simple
