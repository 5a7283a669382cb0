-- ===== src/Json.antt =====
-- The JSON values that the program stores and hashes. Numbers are the non-negative integers: no
-- value that the modelled code builds has another number.
pub mod Print
pub mod Canonical
use vkit_orbit.Base.{ℕ, String, Bool, List, [], ◌∷◌}

mutual
  pub data Json : Type 0 where
    null : Json
    bool : Bool → Json
    num : ℕ → Json
    str : String → Json
    arr : Items → Json
    obj : Fields → Json

  pub data Items : Type 0 where
    nil : Items
    cons : Json → Items → Items

  pub data Fields : Type 0 where
    end : Fields
    field : String → Json → Fields → Fields

abbrev pub items : Items → List Json
items nil = []
items (cons v vs) = v ∷ items vs

abbrev pub entries : Fields → List (String × Json)
entries end = []
entries (field k v fs) = (k, v) ∷ entries fs

abbrev pub from_entries : List (String × Json) → Fields
from_entries [] = end
from_entries ((k, v) ∷ fs) = field k v (from_entries fs)
