-- ===== src/Jobs/Lifecycle/Reach.antt =====
-- Sequences of transactions of the job store, from the empty store on.
use rowtrail.Base.{Bool-cases, Option, [], ap, find, inl, inr, none, refl, some, ◌∙◌}
use rowtrail.Jobs.{Job, Tables, terminal}
use rowtrail.Jobs.Events.{ended_count}
use rowtrail.Jobs.Lifecycle.{Accounted, Later, Later-refl, LaterAll, SameEnd, Step}
use rowtrail.Jobs.Lifecycle.Steps.{Step-Lawful}

-- A store with a history.
pub data Reaches : Tables → Tables → Type 0 where
  here : (db : Tables) → Reaches db db
  next : (a b c : Tables) → Reaches a b → Step b c → Reaches a c

-- The tables of a new workspace.
abbrev pub empty_tables : Tables
empty_tables = record {
  jobs = [];
  results = [];
  objects = [];
  deps = [];
  events = [];
  retention = [];
  pins = [];
  quota = none;
}

Later-trans : (a b c : Option Job) → Later a b → Later b c → Later a c
Later-trans none b c h k = tt
Later-trans (some a) none c h k = absurd h
Later-trans (some a) (some b) none h k = absurd k
Later-trans (some a) (some b) (some c) h k = elim (Bool-cases (terminal a.state)) [
  | inl e ↦
      let x : SameEnd a b = rw e at h in
      let y : SameEnd b c = rw (ap terminal x.0 ∙ e) at k in rw e (y.0 ∙ x.0, y.1 ∙ x.1, y.2 ∙ x.2)
  | inr e ↦ rw e tt
]

history_lawful : (a b : Tables) → Reaches a b → Accounted a → Accounted b × LaterAll a b
history_lawful a b (here _) h = (h, λ id. Later-refl (find id a.jobs))
history_lawful a c (next _ b _ r s) h =
    let (account, later) = history_lawful a b r h in
    let (account', later') = Step-Lawful b c s account in
    (
      account',
      λ id. Later-trans (find id a.jobs) (find id b.jobs) (find id c.jobs) (later id) (later' id),
    )

-- However a store has come about from the empty one by transactions, which are those of db.rs (with
-- the commit of prepare.rs), the quota, retention and garbage collection of storage.rs, and the
-- submission, `open` and `refresh` of api.rs: every job that has ended has
-- exactly one `job.ended` event, any other id has none, and every stored stop request names a state
-- in which a job can end.
pub reachable-Accounted : (db : Tables) → Reaches empty_tables db → Accounted db
reachable-Accounted db r =
    (history_lawful empty_tables db r (unfold find in (unfold ended_count in λ id. refl))).0

-- Whatever transactions follow, garbage collection among them, a job of a store that transactions have made from the empty one is
-- still there, and its state, its error and the time of its end are the same if it had ended.
pub outcome_final : (a b : Tables) → Reaches empty_tables a → Reaches a b → LaterAll a b
outcome_final a b r s = (history_lawful a b s (reachable-Accounted a r)).1
