-- ===== src/Core/Values.antt =====
-- Values of the dynamic language: what a message of type `unknown` can hold. An object is the list
-- of its own properties.
use magna_monorepo.Base.{ℕ, Bool, List, if◌then◌else◌}
use magna_monorepo.Base.Numbers.{ℤ}
use magna_monorepo.Base.Texts.{text_eq}

-- A number: an integer, or anything else (a fraction, NaN, an infinity).
pub data Number : Type 0 where
  integer : ℤ → Number
  not_integer : Number

mutual
  pub data Value : Type 0 where
    undefined null : Value
    boolean : Bool → Value
    number : Number → Value
    string : List ℕ → Value
    array : Elements → Value
    object : Properties → Value

  pub data Elements : Type 0 where
    nil : Elements
    cons : Value → Elements → Elements

  pub data Properties : Type 0 where
    end : Properties
    property : List ℕ → Value → Properties → Properties

-- `value[key]`: a property that is missing reads as `undefined`.
abbrev pub get : List ℕ → Properties → Value
get key end = undefined
get key (property k v rest) = if text_eq k key then v else get key rest

abbrev pub elements : Elements → List Value
elements nil = List.[]
elements (cons v vs) = List.◌∷◌ v (elements vs)
