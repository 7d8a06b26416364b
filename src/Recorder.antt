-- ===== src/Recorder.antt =====
-- recorder/src: what the recorder keeps while it reads a trace, and how it resolves paths with it.
pub mod Paths
pub mod Maps
pub mod FdTable
pub mod Arguments
pub mod Addresses
pub mod Descriptors
pub mod Results
pub mod Strings
pub mod Dns
pub mod Resolving
pub mod Session
pub mod Writer
pub mod Merging
pub mod Translation
pub mod TranslationTests
pub mod WriterTests
pub mod RereadingTests
pub mod MergingTests
pub mod DecodingTests
pub mod Tests
