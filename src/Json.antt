-- ===== src/Json.antt =====
-- JSON as web/static/e2e.js uses it: `JSON.stringify` of objects of whole numbers, texts and lists,
-- and `JSON.parse` of any text. A text is the list of its UTF-16 code units.
pub mod Write
pub mod Read
mod Texts
mod Numbers
pub mod Steps
pub mod RoundTrip
pub mod WellFormed
use Prim.Native.Char.{code}
use Prim.Native.String.{String}
use k_quickshare.Base.{ℕ, [], ◌∷◌, Bool, true, false, List, ◌==◌, if◌then◌else◌}

abbrev pub Text : Type 0
Text = List ℕ

-- A text literal of ASCII characters.
abbrev pub codes : String → Text
codes String.[] = []
codes (String.◌∷◌ c s) = code c ∷ codes s

-- `s === t`
abbrev pub text_eq : Text → Text → Bool
text_eq [] [] = true
text_eq [] (d ∷ t) = false
text_eq (c ∷ s) [] = false
text_eq (c ∷ s) (d ∷ t) = if c == d then text_eq s t else false

-- What the program writes.
mutual
  pub data Json : Type 0 where
    num : ℕ → Json
    str : Text → Json
    arr : Jsons → Json
    obj : Members → Json

  pub data Jsons : Type 0 where
    nil : Jsons
    item : Json → Jsons → Jsons

  pub data Members : Type 0 where
    done : Members
    member : Text → Json → Members → Members

-- What it may read. A number that is negative or not whole is its sign and a fraction.
mutual
  pub data Value : Type 0 where
    null : Value
    bool : Bool → Value
    num : ℕ → Value
    fraction : Bool → ℕ → ℕ → Value
    str : Text → Value
    arr : Values → Value
    obj : Fields → Value

  pub data Values : Type 0 where
    nil : Values
    item : Value → Values → Values

  pub data Fields : Type 0 where
    done : Fields
    field : Text → Value → Fields → Fields

-- A written value as it is read.
abbrev mutual
  pub value : Json → Value
  value (Json.num n) = Value.num n
  value (Json.str s) = Value.str s
  value (Json.arr js) = Value.arr (values js)
  value (Json.obj ms) = Value.obj (fields ms)

  pub values : Jsons → Values
  values Jsons.nil = Values.nil
  values (Jsons.item j js) = Values.item (value j) (values js)

  pub fields : Members → Fields
  fields Members.done = Fields.done
  fields (Members.member k j ms) = Fields.field k (value j) (fields ms)
