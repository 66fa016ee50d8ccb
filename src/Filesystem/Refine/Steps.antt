-- ===== src/Filesystem/Refine/Steps.antt =====
-- Each call on a sound file system answers as the map does.
use os_from_zero.Base.{
  ℕ, ◌≤◌, ◌≡◌, refl, ap, sym, ◌∙◌, true, false, none, some, List, [], ◌>>=◌, ◌∷◌, ltb, length,
  arith, inl, inr, if_true, Bool-cases, Option-cases,
}
use os_from_zero.Strings.Text.{c_text}
use os_from_zero.Filesystem.{
  FileSystem, max_file_size, max_filename_length, is_some, read_file, file_exists, find_file,
  find_file_from, get_free_space, free_slots,
}
use os_from_zero.Filesystem.Names.{take-length}
use os_from_zero.Filesystem.Lookup.{lookup, find-lookup-some, find-lookup-none}
use os_from_zero.Filesystem.Slots.{free_slots_full}
use os_from_zero.Filesystem.Store.Over.{Stored}
use os_from_zero.Filesystem.Store.Create.{create_file_lem}
use os_from_zero.Filesystem.Store.Write.{write_file_lem}
use os_from_zero.Filesystem.Spec
use os_from_zero.Filesystem.Spec.{Op, Answer, put, store_new}
use os_from_zero.Filesystem.Refine.{IsSound, view, step, run, IsShort, AllShort, Agrees}
use os_from_zero.Filesystem.Refine.Views.{read_file-none, read_file-some, Stored-IsSound}
use os_from_zero.Filesystem.Refine.Delete.{delete_file-absent, delete_file-found}
use os_from_zero.Filesystem.Refine.Written.{
  view-Stored-found, view-Stored-new, store_new_full, write_file-big,
}

module _ (s : FileSystem) (name : List ℕ) (sound : IsSound s) where
  create-Agrees : length (c_text name) ≤ max_filename_length → Agrees (Op.create name) s
  unfolding step Spec.step
  create-Agrees short = elim (create_file_lem s name (sound.on) (sound.sized) short) [
    | inl (f, found, run) ↦ record {
      answer = Answer.done false;
      next = s;
      runs = rw run;
      sound = sound;
      same = rw (read_file-some s name sound f found, Spec.step);
    }
    | inr (inl (absent, full, run)) ↦ record {
      answer = Answer.done false;
      next = s;
      runs = rw run;
      sound = sound;
      same = rw (read_file-none s name sound absent, Spec.step) (store_new_full s name [] full);
    }
    | inr (inr (s', absent, run, st)) ↦ record {
      answer = Answer.done true;
      next = s';
      runs = rw run;
      sound = Stored-IsSound s s' name [] 0 sound st;
      same =
          rw (read_file-none s name sound absent, Spec.step)
            (view-Stored-new s s' name [] 0 st absent);
    }
  ]

  delete-Agrees : Agrees (Op.delete name) s
  unfolding step Spec.step
  delete-Agrees = elim (Option-cases (lookup name s.files)) [
    | inl absent ↦ record {
      answer = Answer.done false;
      next = s;
      runs = rw (delete_file-absent s name (sound.on) absent);
      sound = sound;
      same = rw (read_file-none s name sound absent, Spec.step);
    }
    | inr (f, found) ↦
        let (s', run, kept, seen) = delete_file-found s name f sound found in
        record {
          answer = Answer.done true;
          next = s';
          runs = rw run;
          sound = kept;
          same =
              rw (read_file-some s name sound f found, Spec.step)
                (ap (λ m. (Answer.done true, m)) seen);
        }
  ]

  read-Agrees : Agrees (Op.read name) s
  unfolding step Spec.step
  read-Agrees = record { answer = _; next = s; runs = refl; sound = sound; same = refl }

  exists-Agrees : Agrees (Op.exists name) s
  unfolding step Spec.step file_exists find_file
  exists-Agrees = record {
    answer = _;
    next = s;
    runs = refl;
    sound = sound;
    same =
        ap (λ b. (Answer.done b, view s))
          (ap is_some (if_true s.initialized _ none (sound.on))
            ∙ elim (Option-cases (find_file_from name s.files 0)) [
              | inl e ↦
                  ap is_some e
                  ∙ sym
                      (ap is_some (read_file-none s name sound (find-lookup-none name s.files 0 e)))
              | inr (j, e) ↦
                  let (k, f, at, stands, named, first) = find-lookup-some name s.files 0 j e in
                  ap is_some e ∙ sym (ap is_some (read_file-some s name sound f first))
            ]);
  }

  free_space-Agrees : Agrees Op.free_space s
  unfolding step Spec.step get_free_space
  free_space-Agrees = record {
    answer = _;
    next = s;
    runs = refl;
    sound = sound;
    same = ap (λ n. (Answer.space n, view s)) (if_true s.initialized _ 0 (sound.on));
  }

  written-same :
      (s' : FileSystem) (text : List ℕ)
      → ltb max_file_size (length text) ≡ false
      → Stored s s' name text (length text)
      → (Answer.done true, view s') ≡ Spec.step (Op.write name text) (view s)
  unfolding Spec.step
  written-same s' text small st =
      let all = take-length text (length text) (omega arith) in
      elim (Option-cases (lookup name s.files)) [
        | inl absent ↦
            rw (small, read_file-none s name sound absent, Spec.step)
              (view-Stored-new s s' name text (length text) st absent
                ∙ ap (λ t. store_new name t (view s)) all)
        | inr (f, found) ↦
            rw (small, read_file-some s name sound f found, Spec.step)
              (ap (λ m. (Answer.done true, m))
                (view-Stored-found s s' name text (length text) st f found
                  ∙ ap
                      (λ t. record {
                        holds = put name (some t) (read_file s);
                        room = free_slots s.files;
                      })
                      all))
      ]

  write-Agrees :
      (text : List ℕ) → length (c_text name) ≤ max_filename_length → Agrees (Op.write name text) s
  unfolding step Spec.step find_file
  write-Agrees text short = elim (Bool-cases (ltb max_file_size (length text))) [
    | inl big ↦ record {
      answer = Answer.done false;
      next = s;
      runs = rw (write_file-big s name text (length text) (sound.on) big);
      sound = sound;
      same = rw (big, Spec.step);
    }
    | inr small ↦
        elim (write_file_lem s name text (length text) (sound.on) (sound.sized) (ground arith)
          (omega arith) short) [
            | inl (absent, full, run) ↦ record {
              answer = Answer.done false;
              next = s;
              runs = rw run;
              sound = sound;
              same =
                  rw
                    (
                      small,
                      read_file-none s name sound (
                          find-lookup-none name s.files 0
                            (sym (if_true s.initialized _ none (sound.on)) ∙ absent)),
                      Spec.step,
                    )
                    (store_new_full s name text (free_slots_full s.files 0 full));
            }
            | inr (s', run, st) ↦ record {
              answer = Answer.done true;
              next = s';
              runs = rw run;
              sound = Stored-IsSound s s' name text (length text) sound st;
              same = written-same s' text small st;
            }
          ]
  ]

pub step-Agrees : (op : Op) (s : FileSystem) → IsSound s → IsShort op → Agrees op s
step-Agrees (Op.create name) s sound short = create-Agrees s name sound short
step-Agrees (Op.write name text) s sound short = write-Agrees s name sound text short
step-Agrees (Op.delete name) s sound short = delete-Agrees s name sound
step-Agrees (Op.read name) s sound short = read-Agrees s name sound
step-Agrees (Op.exists name) s sound short = exists-Agrees s name sound
step-Agrees Op.free_space s sound short = free_space-Agrees s [] sound

-- Calls on a sound file system answer as those on the map that it is.
pub run_refines :
    (ops : List Op) (s : FileSystem)
    → IsSound s
    → AllShort ops
    → run ops s ≡ some (Spec.run ops (view s))
unfolding run Spec.run
run_refines [] s sound short = refl
run_refines (op ∷ ops) s sound short =
    let a = step-Agrees op s sound short.0 in
    ap (λ o. o >>= λ r. run ops r.1 >>= λ rest. some (r.0 ∷ rest)) (a.runs)
    ∙ (ap (λ o. o >>= λ rest. some (a.answer ∷ rest)) (run_refines ops (a.next) (a.sound) short.1)
        ∙ ap (λ r. some (r.0 ∷ Spec.run ops r.1)) (a.same))
