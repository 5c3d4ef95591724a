-- ===== src/Storage/Mem/Files.antt =====
-- `SaveToFile`, `LoadFromFile` and `GetAllMetrics` of memstorage.go. encoding/json and the file
-- system are parameters; so is what each `range` over a map visits.
pub mod Restore
use go_musthave_metrics.Base.{◌≡◌, Option, none, some, List, [], ◌∷◌, ◌++◌, map, if◌then◌else◌, not}
use go_musthave_metrics.Base.Text.{Text, codes, str_eq}
use go_musthave_metrics.Base.Maps.{GoMap, insert}
use go_musthave_metrics.Base.Words.{Int64}
use go_musthave_metrics.Base.Decimal.{format_int}
use go_musthave_metrics.Base.Results.{Error, Result, ok, err, ◌>>=◌}
use go_musthave_metrics.Model.{Metrics, counter, gauge}
use go_musthave_metrics.Storage.Mem.{MemStorage}

-- What `os.ReadFile` returns.
pub data ReadResult (Data : Type 0) : Type 0 where
  missing : ReadResult Data
  unreadable : Error → ReadResult Data
  contents : Data → ReadResult Data

-- encoding/json on lists of metrics, and package os on whole files.
pub record Outside (F : Type 0) : Type 1 where
  pub Data : Type 0
  pub Disk : Type 0
  pub marshal_indent : List (Metrics F) → Result Data
  pub unmarshal : Data → Result (List (Metrics F))
  pub read_file : Disk → Text → ReadResult Data
  pub write_file : Disk → Text → Data → Option Error × Disk

-- What the two packages document: a file that was written without an error reads back, and what
-- was marshalled without an error unmarshals to itself.
pub record IsFaithful {F : Type 0} (o : Outside F) : Type 0 where
  pub written :
      (d : o.Disk) (p : Text) (x : o.Data)
      → (o.write_file d p x).0 ≡ none
      → o.read_file (o.write_file d p x).1 p ≡ contents x
  pub decoded :
      (ms : List (Metrics F)) (x : o.Data) → o.marshal_indent ms ≡ ok x → o.unmarshal x ≡ ok ms

module _ {F : Type 0} where
  abbrev pub counter_metric : Text × Int64 → Metrics F
  counter_metric (id, delta) = record {
    id = id;
    mtype = counter;
    delta = some delta;
    value = none;
    hash = [];
  }

  abbrev pub gauge_metric : Text × F → Metrics F
  gauge_metric (id, value) = record {
    id = id;
    mtype = gauge;
    delta = none;
    value = some value;
    hash = [];
  }

  -- The two loops of `SaveToFile`.
  pub collect : GoMap Int64 → GoMap F → List (Metrics F)
  collect cs gs = map counter_metric cs ++ map gauge_metric gs

  -- The body of the loop of `LoadFromFile`: a loaded counter replaces the old one.
  unfoldable pub restore_metric : MemStorage F → Metrics F → MemStorage F
  restore_metric m metric =
      if str_eq metric.mtype counter
      then elim metric.delta [
        | some delta ↦ record m { counters = insert metric.id delta m.counters }
        | none ↦ m
      ]
      else if str_eq metric.mtype gauge
      then elim metric.value [
        | some value ↦ record m { gauges = insert metric.id value m.gauges }
        | none ↦ m
      ]
      else m

  unfoldable pub restore : MemStorage F → List (Metrics F) → MemStorage F
  restore m [] = m
  restore m (metric ∷ metrics) = restore (restore_metric m metric) metrics

  -- `cs` and `gs` are what the two loops over the maps visit.
  unfoldable pub save_to_file :
      (o : Outside F) → GoMap Int64 → GoMap F → Text → o.Disk → Option Error × o.Disk
  save_to_file o cs gs filename disk = elim (o.marshal_indent (collect cs gs)) [
    | err e ↦ (some (codes "failed to marshal metrics: " ++ e), disk)
    | ok x ↦
        let (e, disk') = o.write_file disk filename x in
        (elim e [ none ↦ none | some e' ↦ some (codes "failed to write file: " ++ e') ], disk')
  ]

  pub load_from_file : (o : Outside F) → Text → o.Disk → MemStorage F → Option Error × MemStorage F
  load_from_file o filename disk m = elim (o.read_file disk filename) [
    | missing ↦ (none, m)
    | unreadable e ↦ (some (codes "failed to read file: " ++ e), m)
    | contents x ↦ elim (o.unmarshal x) [
      | err e ↦ (some (codes "failed to unmarshal metrics: " ++ e), m)
      | ok metrics ↦ (none, restore m metrics)
    ]
  ]

-- `"<li>%s = %d</li>\n"`, the value already printed.
abbrev list_item : Text → Text → Text
list_item key value = codes "<li>" ++ key ++ codes " = " ++ value ++ codes "</li>\n"

module _ {F : Type 0} (format_float : F → Text) where
  counter_items : GoMap Int64 → Text
  counter_items [] = []
  counter_items ((key, value) ∷ cs) = list_item key (format_int value) ++ counter_items cs

  gauge_items : GoMap F → Text
  gauge_items [] = []
  gauge_items ((key, value) ∷ gs) = list_item key (format_float value) ++ gauge_items gs

  -- `format_float` is the `%f` of package fmt.
  pub get_all_metrics : GoMap Int64 → GoMap F → Result Text
  get_all_metrics cs gs =
      let result = codes "<ul>\n" ++ counter_items cs ++ gauge_items gs ++ codes "</ul>\n" in
      if not (str_eq result (codes "<ul>\n</ul>\n"))
      then ok result
      else err (codes "no metrics found")
