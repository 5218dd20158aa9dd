-- ===== src/Lib.antt =====
-- clockr: a desktop time sheet. The Go service keeps time entries, drafts and calendar events of a
-- period in SQLite, computes the timeline of each date, and lets a user confirm, split, adjust or
-- reject drafts. A sync merges what a calendar holds into the period: it proposes drafts, asks the
-- user about conflicts, and replays the answers that it has been given before.
--
-- The files and the code that they model, from the repository's root:
--   Base, GoTime, GoText   shared notions, and what the code uses of Go's time and strings.
--   Gaps                   internal/service/gaps.go: Interval, clip, clipAll, union, subtract and
--                          totalHours.
--   Zones                  internal/service/gaps.go: activeSegment, loadLoc.
--   Spans                  internal/service/time_entry_confirm.go: subtractInterval,
--                          crossesLocalMidnight, splitAtLocalMidnights.
--   Ledger                 internal/db/sqlc/time_entry.sql.go and period.sql.go: the tables, the
--                          queries as actions on them, and database/sql transactions.
--   Entries                internal/service/time_entry.go: CreateTimeEntry, UpdateTimeEntry,
--                          DeleteTimeEntry, timeEntrySpan, normalizeTimeEntryAllocation.
--   Drafts                 internal/service/time_entry_confirm.go: RejectTimeEntry,
--                          AdjustDraftTimeEntry, SplitTimeEntry, timeEntryLocalSpan.
--   Confirm                internal/service/time_entry_confirm.go: ConfirmTimeEntry and the ways to
--                          resolve overlaps and midnights.
--   Service                the methods above as the calls of a client, and runs of calls.
--   Timeline               internal/service/gaps.go: ComputeGaps and workingWindowsUTC.
--   Periods                internal/service/period.go: currentPeriodRange, fixedDayPeriodRange and
--                          periodContains.
--   Tabular                internal/service/export_tabular.go: DefaultTabularSpec, fieldCatalog,
--                          validateTabularSpec and normalizeTabularSpec.
--   Broker                 internal/broker/store/store.go: states and handoffs, their single use and
--                          their purge.
--   Limiter                internal/broker/ratelimit/limiter.go: New and Allow.
--   Sources, Queries       internal/db/sqlc/models.go, event.sql.go, overlay.sql.go, review_item.sql.go and
--                          time_entry.sql.go: the tables that connect a period to calendars.
--   Calendar               internal/service/review_policy.go and sync_materialize.go: the identity, the
--                          day, the entries and the overlays of an event.
--   GapFills               internal/service/review_policy.go: splitAround, shrinkGapFillsForEvent.
--   Conflicts              internal/service/review_policy.go: EnqueueOrReplay, enqueueSourceDrift.
--   Review                 internal/service/review_policy.go: Apply; review.go: ResolveReviewDecision.
--   Materialize            internal/service/sync_materialize.go: materializeDraftForEvent.
--   Resync, SourceDrift    internal/service/review_policy.go: the On... hooks, the questions of a sync.
--   Incoming               internal/service/sync.go, ai_sync.go: the row and the category of a pulled
--                          event.
--   Sync                   internal/service/sync.go: SyncEvents and its handlers.
--   Exclusion              internal/service/exclude_event.go, all_day_convert.go.
--   Csv, Rendering         internal/service/export_tabular.go: escapeDelimitedCell, joinDelimited and
--                          renderTabular, with a reader of such tables; export.go: the rendered model.
--   Tests                  runs on concrete data.
--
-- How they meet: the handlers of Entries, Drafts, Confirm, Review, Exclusion and Sync are actions on
-- Ledger.Db, composed by do blocks in the order of the source, so that an early return leaves behind
-- what was written before it. Deleting an event deletes its review items with it, by the foreign key
-- of 00025_source_drift_review_kind.sql. Each statement may be refused by the engine, which the
-- field `faults` decides; a transaction undoes its statements unless its commit succeeds. Confirm
-- uses Spans, Timeline uses Gaps, and both use Zones. Sync asks its questions by Resync and
-- SourceDrift, which go through Conflicts and replay answers by Review's apply, and proposes drafts
-- by Materialize.
--
-- Time: an instant is a natural number of nanoseconds since Go's zero Time, a Duration the bits of
-- an int64. The zone database is a parameter of the handlers: a function from names to Location,
-- which answers what local date an instant has and which instants local times name.
--
-- Loops are structural recursion, but for splitAtLocalMidnights, which runs on fuel: the handlers
-- give it one round more than the span has nanoseconds, which is enough wherever the next local
-- midnight lies after every instant.
--
-- Not modelled: the HTTP and protobuf layer, the pull from a calendar itself, other providers, work
-- schedules, the aggregation of exports, the HTTP side of the OAuth broker, and the user interface.
-- Texts of instants are kept by what time.Parse makes of them, JSON payloads by what json.Unmarshal
-- makes of them, and created_at and updated_at are left out, since nothing that is modelled reads
-- them. Zone data, time.UTC, strings.ToLower, the text of an instant's column, SHA-256 (`digest`)
-- and the category that the configured model suggests (`suggest`) are parameters; that a sync also
-- fails when the settings of the model cannot be read is left out.
pub mod Base
pub mod GoTime
pub mod GoText
pub mod Gaps
pub mod Zones
pub mod Spans
pub mod Sources
pub mod Ledger
pub mod Queries
pub mod Entries
pub mod Drafts
pub mod Confirm
pub mod Service
pub mod Timeline
pub mod Calendar
pub mod GapFills
pub mod Conflicts
pub mod Review
pub mod Materialize
pub mod Resync
pub mod SourceDrift
pub mod Incoming
pub mod Sync
pub mod Exclusion
pub mod Broker
pub mod Limiter
pub mod Periods
pub mod Tabular
pub mod Csv
pub mod Rendering
pub mod Tests
