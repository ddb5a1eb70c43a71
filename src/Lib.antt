-- ===== src/Lib.antt =====
-- Verification of the Domain-Specific Paper Harness, a pipeline that ingests papers, analyses them
-- with a language model, keeps a knowledge graph of them and publishes a daily product.
--
-- The parts of the program, in `src/paper_harness`. `domain` holds records that check themselves
-- when they are made and pure functions on them. `application` moves them through the steps of a
-- run. `adapters` talk to services, through one retry loop for HTTP. `ports` are the interfaces
-- between the two, and the accounting wraps each port to count its calls.
--
-- The files, by the source that they model (under `src/paper_harness`):
--   * Prelude: texts, sets and dictionaries as lists, the stable sort, a ℤ over the native numbers.
--   * Result, Exec: exceptions as values (`domain/errors.py`), the checks of a `__post_init__`, and
--     methods that change an object and may raise, which keep what was written before the raise.
--   * Accounting: `application/pipeline_accounting.py`, the class `PipelineAccounting`, its snapshot
--     and the wrappers `AccountingArxiv`, `AccountingPdfParser`, `AccountingLLM` and
--     `AccountingScholarlySearch`; and `ModelUsage` of `domain/analysis.py`. A wrapped port is a
--     parameter with a world of its own; the requests and the other answers are abstract types.
--   * Retry: `adapters/http_retry.py`, all of it. The clocks, the server and the parsing of numbers
--     and dates in headers are parameters. The history of sends and sleeps is the state.
--   * Identity: `domain/identity.py`. `Graph` has the identifiers whose names are length-prefixed
--     parts and `Joined` those whose names are joined by colons; `Arxiv` has the
--     reading of arXiv identifiers and the identifiers that use it or fold case, and `Parsed` is about
--     the printed identifiers. `uuid5` is a parameter, and what is proved is about the names that it
--     hashes; so are `str.lower`, `str.casefold` and the value of a Unicode digit.
--   * Lineage: `build_lineage_snapshot` of `domain/knowledge.py`. `Eligible`, `Search` and `Select`
--     are its three steps from the edges to the selected edges, `Snapshot` is `LineageSnapshot` with
--     its checks and `namespace_lineage_snapshot`, and `Build` composes them. `Invariant` and
--     `Preserved` follow the search, and `Complete` and `Reached` what it does not miss.
--   * Graph: the knowledge graph of `domain/knowledge.py`. `Record` has `GraphModelProvenance`,
--     `GraphEntityMention` and `GraphEdge` with their checks, `Label` and `Entity` the normalization of
--     labels and `GraphEntity`, `Bundle` has `KnowledgeGraphBundle` with its checks, `Union` the
--     deduplication of records by identifier, `Publish` the namespacing of a bundle, and `Merge` the
--     merging of bundles and of entities, of which `Grouped` says that an identifier is left once. A confidence is a whole number of millionths.
--   * Trends: the trend snapshots of `domain/knowledge.py`. `Change` is how a count changed between
--     windows, `Calendar` and `Split` the bounds of the two windows, `Snapshot` is `TrendSnapshot`
--     with its checks, and `Aggregate` and `Window` are `aggregate_trend_window`. A date is the number
--     of its day, which `iso_text` prints. `Counted`, `EntityCounts` and `Active` relate the counts and
--     the activities to the records that they are about.
--   * Selection: `application/daily_selection.py`, all of it, with the fields of `TopicConfig` that it
--     reads. Unicode's NFKC form and `str.casefold` are parameters. `Relevant` says what the filter, the
--     score and the order mean apart from the code, and `Passed` that the code computes it.
--   * Budget: `application/pipeline_budget.py`, all of it. A float is a finite number of microseconds,
--     an infinity or NaN, and `Bound` has the arithmetic on them with the errors of `round`. A run of
--     the pipeline is described apart from the code, by the operations that it consists of.
--   * Gate: `adapters/postgres/arxiv_request_gate.py`, which paces the requests to arXiv. The database,
--     the clock and the request are parameters. `Phase` names what happens on the
--     connection and in which order it may happen; `Returned` is about the connection and `Paced` about
--     when the request is made, for a server that is described by hypotheses.
--   * Ingest: the harvest of `application/ingest_arxiv.py`. `Record` has the records and their
--     normalization (`ports/arxiv.py`), `Query` is `application/arxiv_query.py`, `Progress` the
--     checkpoints of `adapters/postgres/repository.py`, and `Harvest` is `_harvest`. The clocks, arXiv
--     and the statements of the database are parameters. A log of listings, lookups and checkpoints is
--     kept beside the world, also by what raises, and a harvest resumes from the last checkpoint. In
--     the proofs, `Fetched` follows the pending identifiers, `Covered` the days and categories;
--     `Sound` joins them, `Rounds` and `Prepared` keep what it says, and `Harvested` composes these.
--     `Steps` and `Ends` are about the fuel.
--   * Ranking: `application/historical_ranking.py`, all of it, and `CandidateScoreComponents` of
--     `domain/historical.py`. A float is an exact ratio. `str.casefold` is a parameter.
--
-- Units, bounds and fuel. Times of the retry loop, the gate and the budget are whole microseconds, and
-- costs are whole units of 10^-8 dollars, so the rounding of floats is not modelled. A date of the
-- lineage is its ISO text, one of the trends the number of its day, and a UUID is its canonical
-- text; they order and compare as the objects do. An aware time of
-- the retry loop is in microseconds since the year 1, with its offset. `decimal` has the
-- number as fuel. The search of a lineage has `max_nodes` as fuel: each paper enters the queue once
-- and at most that many do. The retry loop recurses on the rounds of its `range`.
-- The harvest has fuel for the rounds of its `while`, of which the pages, the lookups and the days
-- leave finitely many.
--
-- Not modelled: the other parts of the database, the services' clients, the API and the web app,
-- which are input and output; the reports' rendering; and so far the extraction of graph bundles from
-- analyses and comparisons, the search for related work, the backfill, the run around the harvest
-- with its locks and failure records, and the records of runs and searches.
pub mod Prelude
pub mod Result
pub mod Exec
pub mod Accounting
pub mod Retry
pub mod Identity
pub mod Lineage
pub mod Trends
pub mod Selection
pub mod Budget
pub mod Graph
pub mod Gate
pub mod Ranking
pub mod Ingest
