-- ===== src/Sftpgo/Json.antt =====
-- JSON values, in which request and response bodies are given.
use sftpgo_operator.Base.{String, Bool, List, [], ◌∷◌, ℤ, if◌then◌else◌}

mutual
  pub data Json : Type 0 where
    null : Json
    bool : Bool → Json
    -- a numeral with neither fraction nor exponent, and any other
    int : ℤ → Json
    real : String → Json
    str : String → Json
    arr : Items → Json
    obj : Fields → Json

  pub data Items : Type 0 where
    nil : Items
    cons : Json → Items → Items

  pub data Fields : Type 0 where
    close : Fields
    field : String → Json → Fields → Fields

-- A field that `omitempty` leaves out unless it is set.
abbrev pub optional : Bool → String → Json → Fields → Fields
optional set key v rest = if set then field key v rest else rest

abbrev pub items {ℓ} : {A : Type ℓ} → (A → Json) → List A → Items
items f [] = nil
items f (x ∷ l) = cons (f x) (items f l)

abbrev pub strings : List String → Json
strings l = arr (items str l)
