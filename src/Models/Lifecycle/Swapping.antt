-- ===== src/Models/Lifecycle/Swapping.antt =====
-- What a swap leaves of the models that ran before (internal/models/lifecycle.go, `Swap`, `Unload`, `ListRunning`).
use mathlib.Core.Path.{subst}
use hive_mind_fusion.Prelude.{
  ℤ, ltb, Text, text, same, same_iff, same_refl, ne_of_same, lookup, lookup-keep_keys, length, true,
  false, not, ◌&&◌, List, [], ◌∷◌, Any, Option, none, some, ◌≡◌, ◌≢◌, refl, sym, ap, ◌∙◌, ◌⊎◌, inl,
  inr, arith, Bool-cases,
}
use hive_mind_fusion.Models.Scanner.{DirEntry, has_suffix}
use hive_mind_fusion.Models.Lifecycle.{
  Host, Os, LoadOptions, loaded, resolve_model_path, pid_in, read_pid, running_of, running_pid,
  remove_pid, unload_pid, unload, stem, add_if_running, running_names, names_in, list_running,
  unload_all, swap,
}
use hive_mind_fusion.Models.Lifecycle.Loading.{Loaded, load-Loaded}

abbrev pub Has : {A : Type 0} → A → List A → Type 0
Has a xs = Any (λ x. x ≡ a) xs

-- A name that was found running has a PID file with a number.
abbrev HasPid : Host → Text → Type 0
HasPid h name = (pid : ℤ) × (read_pid h name ≡ some pid)

running_of-some :
    (os : Os) (h : Host) (o : Option ℤ) (pid : ℤ) → running_of os h o ≡ some pid → o ≡ some pid
running_of-some os h none pid e = e
running_of-some os h (some p) pid e = ground (arith, e)

running_pid-read_pid :
    (os : Os) (h : Host) (name : Text) (pid : ℤ)
    → running_pid os h name ≡ some pid
    → read_pid h name ≡ some pid
unfolding running_pid
running_pid-read_pid os h name pid e = running_of-some os h (read_pid h name) pid e

Has-add_if_running :
    (name other : Text) (o : Option ℤ) (names : List Text)
    → Has name (add_if_running other o names)
    → ((other ≡ name) × ((pid : ℤ) × (o ≡ some pid))) ⊎ Has name names
Has-add_if_running name other none names h = inr h
Has-add_if_running name other (some pid) names (inl e) = inl (e, (pid, refl))
Has-add_if_running name other (some pid) names (inr k) = inr k

Has-running_names :
    (os : Os) (h : Host) (es : List DirEntry) (name : Text)
    → Has name (running_names os h es)
    → HasPid h name
unfolding running_names
Has-running_names os h [] name = λ k. elim k [ ]
Has-running_names os h (e ∷ es) name = elim (Bool-cases e.is_dir) [
  | inl y ↦ rw y (Has-running_names os h es name)
  | inr n ↦ rw n (elim (Bool-cases (ltb 4 (length e.name) && has_suffix (text ".pid") e.name)) [
    | inr m ↦ rw m (Has-running_names os h es name)
    | inl y ↦ rw y (λ k.
        elim (Has-add_if_running name (stem e.name) (running_pid os h (stem e.name))
          (running_names os h es) k) [
            | inl (same_name, (pid, running)) ↦ (
              pid,
              ap (read_pid h) (sym same_name) ∙ running_pid-read_pid os h (stem e.name) pid running,
            )
            | inr later ↦ Has-running_names os h es name later
          ])
  ])
]

Has-list_running :
    (os : Os) (h : Host) (o : Option (List DirEntry)) (name : Text)
    → Has name (names_in os h o)
    → HasPid h name
Has-list_running os h none name k = elim k [ ]
Has-list_running os h (some es) name k = Has-running_names os h es name k

pub same-flip : (a b : Text) → same a b ≡ false → same b a ≡ false
same-flip a b h = ground (arith, same_iff a b, same_iff b a, h)

later-Has : (n : Text) (ns : List Text) (name : Text) → Has name (n ∷ ns) → n ≢ name → Has name ns
later-Has n ns name (inl e) ne = absurd (ne e)
later-Has n ns name (inr k) ne = k

-- A model that was listed is unloaded: no PID file, and its process got a signal.
abbrev pub Unloaded : Host → Text → ℤ → Type 0
Unloaded now name pid = (lookup name now.pid_files ≡ none) × Has pid now.signalled

-- When every process is found, every signal is delivered and every removal succeeds.
module _ (os : Os) (finds : (pid : ℤ) → os.find_process pid ≡ true)
    (delivers : (h : Host) (pid : ℤ) → os.signal_ok h pid ≡ true)
    (removes : (h : Host) (name : Text) → os.remove_ok h name ≡ true) where
  unload_pid-Unloaded :
      (name : Text) (h : Host) (pid : ℤ) → Unloaded (unload_pid os name h (some pid)).0 name pid
  unfolding remove_pid
  unload_pid-Unloaded name h pid =
      rw (finds pid, delivers h pid, removes (record h { signalled = pid ∷ h.signalled }) name)
        (
          lookup-keep_keys (λ k. not (same k name)) name h.pid_files ∙ rw (same_refl name) refl,
          inl refl,
        )

  lookup-unload_pid :
      (name other : Text) (h : Host) (o : Option ℤ)
      → (lookup other (unload_pid os name h o).0.pid_files ≡ lookup other h.pid_files)
        ⊎ (lookup other (unload_pid os name h o).0.pid_files ≡ none)
  unfolding remove_pid
  lookup-unload_pid name other h none = inl refl
  lookup-unload_pid name other h (some pid) =
      rw (finds pid, delivers h pid, removes (record h { signalled = pid ∷ h.signalled }) name)
        (rw (lookup-keep_keys (λ k. not (same k name)) other h.pid_files)
          (elim (Bool-cases (same other name)) [
            | inl y ↦ rw y (inr refl)
            | inr n ↦ rw n (inl refl)
          ]))

  Has-unload_pid :
      (name : Text) (h : Host) (o : Option ℤ) (pid : ℤ)
      → Has pid h.signalled
      → Has pid (unload_pid os name h o).0.signalled
  unfolding remove_pid
  Has-unload_pid name h none pid k = k
  Has-unload_pid name h (some p) pid k =
      rw (finds p, delivers h p, removes (record h { signalled = p ∷ h.signalled }) name) (inr k)

  unload-Unloaded :
      (name other : Text) (h : Host) (pid : ℤ)
      → Unloaded h name pid
      → Unloaded (unload os other h).0 name pid
  unfolding unload
  unload-Unloaded name other h pid (gone, told) = (
    elim (lookup-unload_pid other name h (read_pid h other)) [ inl e ↦ e ∙ gone | inr e ↦ e ],
    Has-unload_pid other h (read_pid h other) pid told,
  )

  unload_all-Unloaded :
      (names : List Text) (name : Text) (h : Host) (pid : ℤ)
      → Unloaded h name pid
      → Unloaded (unload_all os names h) name pid
  unfolding unload_all
  unload_all-Unloaded [] name h pid u = u
  unload_all-Unloaded (n ∷ ns) name h pid u =
      unload_all-Unloaded ns name (unload os n h).0 pid (unload-Unloaded name n h pid u)

  unload_self :
      (n name : Text) (h : Host) (pid : ℤ)
      → n ≡ name
      → read_pid h name ≡ some pid
      → Unloaded (unload os n h).0 name pid
  unfolding unload
  unload_self n name h pid e r = rw (e, r) (unload_pid-Unloaded name h pid)

  lookup-unload_other :
      (n name : Text) (h : Host) (o : Option ℤ)
      → same n name ≡ false
      → lookup name (unload_pid os n h o).0.pid_files ≡ lookup name h.pid_files
  unfolding remove_pid
  lookup-unload_other n name h none ne = refl
  lookup-unload_other n name h (some pid) ne =
      rw (finds pid, delivers h pid, removes (record h { signalled = pid ∷ h.signalled }) n)
        (lookup-keep_keys (λ k. not (same k n)) name h.pid_files ∙ rw (same-flip n name ne) refl)

  read_pid-unload_other :
      (n name : Text) (h : Host)
      → same n name ≡ false
      → read_pid (unload os n h).0 name ≡ read_pid h name
  unfolding unload read_pid
  read_pid-unload_other n name h ne = ap pid_in (lookup-unload_other n name h (read_pid h n) ne)

  unload_all-Has :
      (names : List Text) (name : Text) (h : Host) (pid : ℤ)
      → Has name names
      → read_pid h name ≡ some pid
      → Unloaded (unload_all os names h) name pid
  unfolding unload_all
  unload_all-Has [] name h pid k r = elim k [ ]
  unload_all-Has (n ∷ ns) name h pid k r = elim (Bool-cases (same n name)) [
    | inl y ↦
        unload_all-Unloaded ns name (unload os n h).0 pid
          (unload_self n name h pid ((same_iff n name).0 y) r)
    | inr ne ↦
        unload_all-Has ns name (unload os n h).0 pid (later-Has n ns name k (ne_of_same n name ne))
          (read_pid-unload_other n name h ne ∙ r)
  ]

  -- For each model that runs when a swap to a model of another name begins, when every process is found, every signal is
  -- delivered and every removal succeeds: if the swap succeeds, the process of that model got a signal and the model has no PID
  -- file.
  pub swap-Unloaded :
      (dir name : Text) (opts : LoadOptions) (h now : Host) (other : Text) (pid : ℤ)
      → Has other (list_running os h)
      → swap os dir name opts h ≡ (now, loaded pid)
      → same name other ≡ false
      → (lookup other now.pid_files ≡ none)
        × ((old : ℤ) × (read_pid h other ≡ some old) × Has old now.signalled)
  unfolding swap list_running
  swap-Unloaded dir name opts h now other pid k e ne =
      let mid = unload_all os (list_running os h) h in
      let after = load-Loaded os dir name opts mid in
      let (size, there, fits, idle, new) =
        subst (Loaded os name (resolve_model_path os dir name) opts mid) e after in
      let (started, signalled, killed, recorded, others) = new in
      let (old, r) = Has-list_running os h (os.read_dir h) other k in
      let (gone, told) = unload_all-Has (list_running os h) other h old k r in
      (others other ne ∙ gone, (old, r, rw signalled told))
