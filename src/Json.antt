-- ===== src/Json.antt =====
-- A value that `json.loads` returns, as far as the program looks into it, and Python's `get`.
use burnlens.Prelude.{ℕ, String, Bool, Option, none, some, ◌==◌, if◌then◌else◌}

mutual
  pub data Json : Type 0 where
    null : Json
    bool : Bool → Json
    int : ℕ → Json
    negative : ℕ → Json  -- the integer -n
    float : Bool → Json  -- a number that is no integer, and whether it differs from 0.0
    str : String → Json
    arr : Items → Json
    obj : Fields → Json

  pub data Items : Type 0 where
    nil : Items
    cons : Json → Items → Items

  pub data Fields : Type 0 where
    end : Fields
    field : String → Json → Fields → Fields

-- `d.get(k)`; `json.loads` keeps the last of two equal keys
unfoldable pub get : String → Fields → Option Json
get k end = none
get k (field j v fs) =
    let rest = get k fs in elim rest [ some w ↦ some w | none ↦ if j == k then some v else none ]
