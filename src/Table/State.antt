-- ===== src/Table/State.antt =====
-- Methods that change tables: they take the heap, and return the heap with the result. An
-- exception does not undo what was written before it.
use ldacs_mcsotdma.Prelude.{Bool, Option, none, some, ◌==◌, if◌then◌else◌, set}
use ldacs_mcsotdma.Prelude.Result.{Result, ok, err, Error, null_pointer}
use ldacs_mcsotdma.Reservation.{Reservation}
use ldacs_mcsotdma.Table.{Heap, Table, TableId, convert_offset_to_index}
use ldacs_mcsotdma.Prelude.{ℤ}

abbrev pub M : Type 0 → Type 0
M A = Heap → Result A × Heap

abbrev pub pure : {A : Type 0} → A → M A
pure a h = (ok a, h)

abbrev pub throw : {A : Type 0} → Error → M A
throw e h = (err e, h)

abbrev pub then_with : {A B : Type 0} → (A → M B) → Result A × Heap → Result B × Heap
then_with f (ok a, h) = f a h
then_with f (err e, h) = (err e, h)

infixl 5 ◌>>=◌ ◌>>◌
abbrev pub ◌>>=◌ : {A B : Type 0} → M A → (A → M B) → M B
◌>>=◌ m f h = then_with f (m h)

abbrev pub ◌>>◌ : {A B : Type 0} → M A → M B → M B
m >> k = m >>= λ _. k

-- A call of a `const` method.
abbrev pub reads : {A : Type 0} → (Heap → Result A) → M A
reads f h = (f h, h)

abbrev pub guard : Bool → Error → M (Unit {0})
guard b e = if b then pure tt else throw e

abbrev pub handle : {A : Type 0} → (Error → Bool) → M A → Result A × Heap → Result A × Heap
handle caught handler (ok a, h) = (ok a, h)
handle caught handler (err e, h) = if caught e then handler h else (err e, h)

-- `try { m } catch (caught) { handler }`: the handler starts from what `m` has left.
abbrev pub try_catch : {A : Type 0} → M A → (Error → Bool) → M A → M A
try_catch m caught handler h = handle caught handler (m h)

abbrev pub store : TableId → Table → Heap → Heap
store i t h = record h { tables = λ j. if j == i then t else h.tables j }

abbrev pub modify : TableId → (Table → Table) → M (Unit {0})
modify i f h = (ok tt, store i (f (h.tables i)) h)

abbrev pub deref : Option TableId → Result TableId
deref none = err null_pointer
deref (some i) = ok i

-- `slot_utilization_vec.at(convertOffsetToIndex(slot_offset)) = reservation`
abbrev pub put_slot : ℤ → Reservation → Table → Table
put_slot slot_offset r t = record t {
  slot_utilization_vec = set t.slot_utilization_vec (convert_offset_to_index t slot_offset) r;
}
