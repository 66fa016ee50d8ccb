-- ===== src/Filesystem/Spec.antt =====
-- What the file system promises: a finite map from names to contents with room for so many more
-- names, and the calls on it.
use os_from_zero.Base.{
  ℕ, suc, ◌-◌, ◌*◌, Bool, true, false, Option, none, some, List, [], ◌∷◌, ◌==◌, ltb, if◌then◌else◌,
  length,
}
use os_from_zero.Filesystem.{same_name, max_file_size, is_some}

pub data Op : Type 0 where
  create : List ℕ → Op
  write : List ℕ → List ℕ → Op
  delete : List ℕ → Op
  read : List ℕ → Op
  exists : List ℕ → Op
  free_space : Op

pub data Answer : Type 0 where
  done : Bool → Answer
  bytes : Option (List ℕ) → Answer
  space : ℕ → Answer

pub record Map : Type 0 where
  pub holds : List ℕ → Option (List ℕ)
  pub room : ℕ

-- The map holds `v` under this name.
abbrev pub put : List ℕ → Option (List ℕ) → (List ℕ → Option (List ℕ)) → List ℕ → Option (List ℕ)
put name v h other = if same_name name other then v else h other

-- A new name needs room.
unfoldable pub store_new : List ℕ → List ℕ → Map → Answer × Map
store_new name v m =
    if m.room == 0
    then (Answer.done false, m)
    else (Answer.done true, record { holds = put name (some v) m.holds; room = m.room - 1 })

unfoldable pub step : Op → Map → Answer × Map
unfolding store_new
step (Op.create name) m = elim (m.holds name) [
  | some v ↦ (Answer.done false, m)
  | none ↦ store_new name [] m
]
step (Op.write name text) m =
    if ltb max_file_size (length text) then (Answer.done false, m) else elim (m.holds name) [
      | some v ↦ (Answer.done true, record { holds = put name (some text) m.holds; room = m.room })
      | none ↦ store_new name text m
    ]
step (Op.delete name) m = elim (m.holds name) [
  | some v ↦ (Answer.done true, record { holds = put name none m.holds; room = suc m.room })
  | none ↦ (Answer.done false, m)
]
step (Op.read name) m = (Answer.bytes (m.holds name), m)
step (Op.exists name) m = (Answer.done (is_some (m.holds name)), m)
step Op.free_space m = (Answer.space (m.room * max_file_size), m)

unfoldable pub run : List Op → Map → List Answer
unfolding step
run [] m = []
run (op ∷ ops) m = let (a, m') = step op m in a ∷ run ops m'

-- The map with more files, each under a name that is new.
abbrev pub fill : List (List ℕ × List ℕ) → Map → Map
fill [] m = m
fill ((name, text) ∷ ds) m =
    fill ds (record { holds = put name (some text) m.holds; room = m.room - 1 })

-- A map that holds nothing.
abbrev pub empty : ℕ → Map
empty n = record { holds = λ name. none; room = n }
