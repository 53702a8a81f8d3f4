-- ===== src/Archive.antt =====
-- src/archive: the file format of Egalito archives, bottom up. Stream has the readers and writers of
-- integers and strings, ChunkTypes the bytes for the types of chunks, FlatChunk the list of chunks,
-- Writer and Reader the whole file, RoundTrip and Offsets their theorems.
pub mod Stream
pub mod ChunkTypes
pub mod FlatChunk
pub mod Writer
pub mod Reader
pub mod RoundTrip
pub mod Offsets
