-- ===== src/Series/Tables.antt =====
-- The rows of series and their sources (api/src/tabayyun/db/models.py), as the services of series use
-- them.
use tabayyun.Prelude.{ℕ, Bool, false, ◌&&◌, ltb, Option, String, List, Tx}

-- A double of a limit: its rank among the doubles that are numbers, which the code only compares, or NaN.
pub data Double : Type 0 where
  real : ℕ → Double
  nan : Double

-- The rank of the infinity: 2047 · 2⁵³, as each sign has 2047 · 2⁵² - 1 finite doubles besides zero. The
-- negative infinity has the rank 0.
abbrev pub infinity : ℕ
infinity = 18437736874454810624

abbrev pub is_finite : Double → Bool
is_finite (real n) = ltb 0 n && ltb n infinity
is_finite nan = false

-- A value of JSON: an object, as its keys and the canonical JSON of their values, or the JSON of
-- anything else.
pub data Json : Type 0 where
  object : List (String × String) → Json
  other : String → Json

-- The dict `metadata`, in the order of its keys.
abbrev pub Blob : Type 0
Blob = List (String × Json)

pub record Series : Type 0 where
  pub id : ℕ
  pub org_id : ℕ
  pub workspace_id : ℕ
  pub source_id : ℕ
  pub external_id : String
  pub name : String
  pub unit : Option String
  pub kind : String
  pub expected_interval_ns : Option ℕ
  pub physical_min : Option Double
  pub physical_max : Option Double
  pub operational_min : Option Double
  pub operational_max : Option Double
  pub resolution : Option ℕ
  pub non_negative : Option Bool
  pub asset_path : Option String
  pub metadata : Blob
  pub updated_at : ℕ

pub record Source : Type 0 where
  pub id : ℕ
  pub org_id : ℕ
  pub workspace_id : ℕ
  pub source_type : String
  pub name : String

-- `drawn` counts the uuids drawn.
pub record Store : Type 0 where
  pub sources : List Source
  pub series : List Series
  pub drawn : ℕ

pub record MetadataError : Type 0 where
  pub field : String
  pub message : String

abbrev pub Change : Type 0 → Type 0
Change A = Tx MetadataError Store A
