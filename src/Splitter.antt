-- ===== src/Splitter.antt =====
-- frontend/src/lib/messageSplitter.ts: the byte-correct splitter of outbound text. A string is the
-- list of its code points, which is what `for (const ch of line)` walks.
pub mod Bytes
pub mod Break
pub mod Pack
pub mod Budget
mod Tests
