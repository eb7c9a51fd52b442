-- ===== src/Lib.antt =====
-- ircfiber-site: the browser client of an IRC service (frontend/src, TypeScript). The client keeps
-- one stream to the server, turns what arrives into buffers of messages, and sends what the user
-- types. This library models the parts of it that carry state or compute, each by functions that
-- follow the code, and proves what makes them correct.
--
-- The parts, and the files that model them:
--
-- Common: lists, options and Boolean tests that the parts share.
-- Splitter: frontend/src/lib/messageSplitter.ts. A text is a list of code points. Break is
--   breakLine, Pack is splitIntoMessages, Budget is ircPayloadBudget; each loop is recursion
--   over the code points or the lines.
-- Batcher: frontend/src/lib/messageBatcher.ts. The module's variables are the record Batcher,
--   and each handler is a function from one such record to the next; the log of calls of the
--   flush functions is its last field. Key and Sort are the queue's keys and compareBatch.
-- Store: frontend/src/stores/ircStore.svelte.ts, the rows of one buffer. Message is the row;
--   Overlay, Stash and Fold are redactions, edits and reactions, and what waits for a row that
--   is not loaded; Append is appendMessage with Place, its end; Batch is batchAppendMessages;
--   Page is prependMessages with Fail, the rewriting of FAIL rows; Typing is the typing
--   indicator of one nick, Unread the read markers of one buffer, and its Arrive what arriving
--   messages make of its unseen state. The record Chat is the state of Append and Batch,
--   Timeline that of Page.
-- Connection: frontend/src/stores/wsConnection.svelte.ts. The module's variables are the record
--   Connection, with the frames sent and the settled requests as logs. Machine lists the events
--   the browser brings in and runs them; Offline is what waits in the queue, and Order what goes
--   out of it.
-- Segmentation: frontend/src/lib/segmentation.ts, the dynamic program that covers a row of cells
--   by segments; Pick is its inner loops and Optimal what it finds.
-- FuzzyMatch: frontend/src/lib/fuzzyMatch.ts, the scores of the quick switcher. Order is how a
--   query can occur in a target, Tiers what a score says of it.
-- HoleDetector: frontend/src/lib/wsHoleDetector.ts, the window of recent eids and the check for
--   missing ones.
-- Ignore: frontend/src/lib/ignore.ts. The map from hosts to users to nicks is lists of pairs in
--   the order of insertion; Refinement compares it with the list of patterns, and Wildcard the
--   regular expressions with what a wildcard says.
-- InputHistory: frontend/src/lib/inputHistory.ts, the lines sent and the navigation through
--   them.
-- Formatting: frontend/src/lib/ircFormatting.ts. A text is a list of UTF-16 code units and the
--   markup the list of the pieces appended to out. The loop of parseIrcFormatting is Formatting
--   itself, on as much fuel as the text has units; Codes is the style and what the codes make of
--   it, Strip is stripIrcFormatting, Grammar the codes a text is written with, Loop and Safe
--   what the markup is free of, Display and Plain what the two make of them, and Palette the
--   colour tables.
-- ModeLine: frontend/src/lib/modeSentence.ts, parseModeLine and mergeUserModeChange. Events is
--   the list of what the letters do, Users with Change, Flags and Merge what is said of it.
-- ServerLog: frontend/src/lib/serverLogGroups.ts. Dedup drops duplicates, Groups and its Step
--   put the rest into connection attempts; an attempt that is current again after it was listed
--   is its index in the list, so a change of the one is a change of the other.
-- SlashCommands: frontend/src/lib/slashCommands.ts. A command is a function from the session to
--   its outcome and the session, where a throw keeps what was written; calls of other modules
--   are a log. Handlers and Buffers are the commands, Registry finds one by name; Atomic, Lines
--   with its rules in Wire, and Highlights are what is shown of them.
-- TabCompletion: frontend/src/lib/tabCompletion.ts, the word under the cursor (Cursor) the lists
--   of candidates (Candidates, and Choice between them; Offered with Chosen and Ranks, and
--   Commands, say what is in them) and the walk through one (Cycle). The loop to the left is
--   recursion on the cursor, the loop to the right on the text behind it.
-- FormatCache: frontend/src/lib/formatCache.ts, the memo tables of rendered text.
--
-- The stream brings messages in, whose eids go to the hole detector and whose texts go through the
-- batcher to the store; the splitter cuts what the user sends into lines for the stream.
--
-- Times are natural numbers of milliseconds and arguments of the handlers. The walk through the
-- table of a segmentation has as many rounds as there are cells, which is enough since every round
-- covers one, and the formatting loop has as many as the text has units, since every round reads
-- one; no other function has fuel. Costs of a segmentation are natural numbers. What the browser
-- provides (sockets, timers, storage, the comparison of texts by locale, their lower case,
-- trimming and prefixes, the rendering function) is an event or a parameter. Not modelled are the
-- lists of members, networks and pending joins of the store, the dispatch of incoming lines, the
-- rows of the server log, and the notification policy, which are parts of the client with state or
-- rules of their own, and network requests, the views, image conversion and the server, which are
-- outside it or only call the browser.
pub mod Batcher
pub mod Common
pub mod Connection
pub mod FormatCache
pub mod Formatting
pub mod FuzzyMatch
pub mod HoleDetector
pub mod Ignore
pub mod InputHistory
pub mod ModeLine
pub mod Segmentation
pub mod ServerLog
pub mod SlashCommands
pub mod Splitter
pub mod Store
pub mod TabCompletion
