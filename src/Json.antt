-- ===== src/Json.antt =====
-- The values that `json.loads` returns. A number with a fraction or an exponent is a Python float: of
-- it the program only takes `int(value)`, so a finite one is kept as its part before the point.
pub mod Dumps
use derico_sandbox.Prelude.{String, List, [], ◌∷◌, Bool}
use derico_sandbox.Prelude.Int.{ℤ}
use derico_sandbox.Prelude.Dict.{Dict}

pub data Real : Type 0 where
  finite : ℤ → Real
  infinite nan : Real

mutual
  pub data Value : Type 0 where
    null : Value
    bool : Bool → Value
    int : ℤ → Value
    real : Real → Value
    text : String → Value
    obj : Fields → Value
    arr : Items → Value

  pub data Fields : Type 0 where
    end : Fields
    field : String → Value → Fields → Fields

  pub data Items : Type 0 where
    nil : Items
    cons : Value → Items → Items

abbrev pub items : Items → List Value
items nil = []
items (cons v vs) = v ∷ items vs

-- An object as a dictionary. (`json.loads` has kept the last value of a key that is written twice.)
abbrev pub fields : Fields → Dict String Value
fields end = []
fields (field k v fs) = (k, v) ∷ fields fs

abbrev pub array : List Value → Items
array [] = nil
array (v ∷ vs) = cons v (array vs)

abbrev pub object : Dict String Value → Fields
object [] = end
object ((k, v) ∷ d) = field k v (object d)
