-- ===== src/Cmd/Slices.antt =====
-- Go slices: a view on an array that other slices may share. `append` writes into the array while
-- there is room in it, and otherwise moves to a new one; how large that one is, is left to the
-- runtime, the parameter `grow` of the old capacity.
use sftpgo_operator.Base.{
  ℕ, zero, suc, ◌+◌, Option, none, some, List, [], ◌∷◌, ltb, nat_eq, if◌then◌else◌, ◌&&◌,
}

pub record Slice : Type 0 where
  pub array : ℕ
  pub len : ℕ
  pub cap : ℕ

-- The arrays by their addresses; an element that was never written is `nil`.
pub record Memory (A : Type 0) : Type 0 where
  pub next : ℕ
  pub cell : ℕ → ℕ → Option A

abbrev pub nil_slice : Slice
nil_slice = record { array = 0; len = 0; cap = 0 }

module _ {A : Type 0} where
  abbrev pub empty_memory : Memory A
  empty_memory = record { next = 0; cell = λ p i. none }

  abbrev pub write : ℕ → ℕ → A → (ℕ → ℕ → Option A) → ℕ → ℕ → Option A
  write p i x cell q j = if nat_eq p q && nat_eq i j then some x else cell q j

  abbrev pub copy_array : ℕ → ℕ → (ℕ → ℕ → Option A) → ℕ → ℕ → Option A
  copy_array from to cell q j = if nat_eq to q then cell from j else cell q j

  unfoldable pub append : (ℕ → ℕ) → A → Slice → Memory A → Slice × Memory A
  append grow x s m =
      if ltb s.len s.cap
      then (record s { len = s.len + 1 }, record m { cell = write s.array s.len x m.cell })
      else (
        record { array = m.next; len = s.len + 1; cap = grow s.cap },
        record {
          next = m.next + 1;
          cell = write m.next s.len x (copy_array s.array m.next m.cell);
        },
      )

  -- `n` elements from the index `i` on.
  abbrev pub elements_from : Memory A → ℕ → ℕ → ℕ → List (Option A)
  elements_from m p i zero = []
  elements_from m p i (suc n) = m.cell p i ∷ elements_from m p (i + 1) n

  abbrev pub elements : Memory A → Slice → List (Option A)
  elements m s = elements_from m s.array 0 s.len
