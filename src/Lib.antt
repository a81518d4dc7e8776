-- ===== src/Lib.antt =====
-- Verification library for the point cloud plugins.
--
-- The program reads point clouds (LAS, LAZ, COPC, PLY), keeps them as columns of point data, samples and
-- tiles them, and authors USD. The parts that decide what is read and kept are modelled here:
--   * Core: libs/usd-geo-core. Core/Float64 holds doubles as bit patterns with the comparisons of C++;
--     Core/Bounds is SpatialBounds (Empty, IsValid, Expand); Core/TileId is TileId (IsValid, ToString);
--     Core/CacheKey is src/CacheKey.cpp; Core/Diagnostic is include/usdgeo/Diagnostic.h.
--   * Cloud: libs/usd-pointcloud-core. Cloud/PointData is PointData and PointData::IsValid,
--     Cloud/Sampling is SamplePointData of src/Sampling.cpp, Cloud/Names is NormalizeExtraByteNames, Cloud/Chunk is
--     PointChunk with MakePointChunk, and Cloud/Lod is src/Lod.cpp. Core/Float32 holds floats as Core/Float64 doubles.
--   * Spool: libs/usd-pointcloud-tiling/src/Spool.cpp, the temporary file of a tile. Spool/Writer and
--     Spool/Reader hold TileSpoolWriter and TileSpoolReader, one function per member function and one per
--     step of it, over the streams of Spool/Stream; Spool/Layout describes the bytes of a file and
--     is no code; Spool/RoundTrip joins the two.
--   * Las: libs/usd-las/src/LasFormat.cpp, with InspectHeader in Las/Header, ReadRecords in Las/Records
--     the layout of extra bytes in Las/Format, the decoding of a point by DecodePoint of
--     src/LasPoint.cpp in Las/Point, and the overloads that report diagnostics in Las/Report.
--   * Copc: libs/usd-copc/src/Copc.cpp, with the IsValid functions in Copc/Entry and
--     CopcReader::ReadHierarchy in Copc/Hierarchy. It uses the LAS header of Las/Header.
--   * Tiling: libs/usd-pointcloud-tiling/src/Tiling.cpp. Tiling/Config holds the configurations,
--     Tiling/Budget the adaptive planner BuildPointBudgetPlan on points in memory, Tiling/Router the
--     PointBudgetTileRouter of such a plan, Tiling/Grid the FixedGridTileRouter, Tiling/Plan the TilePlan with
--     ValidateTilePlan in Plan/Validate and BuildTilePlan in Plan/Build, Tiling/Manifest the tile manifest, Tiling/Ids the order of
--     identities. Below them stand the proofs: Budget/Tree describes the planner's leaves as a plain
--     recursion, Router/Quarters and Router/Routes follow a point through the quadtree, Plan/Rounds, Plan/Distinct,
--     Plan/Tree and Plan/Fuel are about the validation, and Plan/Totals, Plan/Leaves and Plan/Built about the
--     nodes that are built.
--   * Prelude: lists, numbers, bytes and sorting that the parts share.
--
-- State is passed explicitly. A writer or reader is a record of the fields of its Impl; an operation
-- gives the new state, what it returned, and the diagnostics that it added. A file that is written
-- stands on a device with a capacity, behind the buffer of its stream: a write fails once device and
-- buffer are full, and a flush where the bytes do not fit the device, as on a full disk.
-- Opening a file is an outcome of the environment. The pages of a COPC file come from a function
-- argument, as RandomAccessSource::Read is an interface that the caller implements.
--
-- Numbers are natural numbers with the wrap-around written out where the code can reach it; signed
-- integers are ℤ over them. Doubles are 64-bit patterns: comparisons and finiteness are
-- modelled, arithmetic that rounds is not.
--
-- What rounds in Tiling.cpp is a parameter: the middle of two coordinates (mid), the average of the points per
-- tile (quotient), and the floor of a coordinate over the tile size (floored).
--
-- In Las/Point it is the scaled coordinate (coordinate), the value of an extra byte (affine) and the double of a
-- scalar (to_double).
--
-- Loops are structural but for a few. The client loop over ReadNext runs on fuel, one more than
-- the number of points. The recursion of ReadHierarchy runs on fuel, one more than the file size:
-- a page starts in the file and is read at most once. The recursion of the planner runs on one more than the
-- greatest depth, the loop of GetTileId on 32 rounds, since the level stops at 31, and the walk of
-- ValidateTilePlan on one more than the number of nodes, since a visit opens a node.
-- The search for a name of extra bytes runs one round more than there are names in use.
--
-- Not modelled: files and directories beyond the streams, the vendored decoders (third_party), USD
-- authoring and the plugins, the cache on disk, poses and other arithmetic of doubles, and so far
-- the planner over point streams and the text of manifests in Tiling.cpp, the LAS reader and its streams, and the tile plan of COPC.
pub mod Prelude
pub mod Core
pub mod Cloud
pub mod Spool
pub mod Las
pub mod Copc
pub mod Tiling
