-- ===== src/Recorder/FdTable/Forks.antt =====
-- recorder/src/fdtable.rs: `fork`, and the calls of two processes after it.
use install_scope.Common.{
  ℕ, ◌≡◌, refl, ap, ◌∙◌, ◌≢◌, inl, inr, Option, none, some, List, [], ◌∷◌, All, All-map, sym,
  not_true, Bool-cases, Option-cases,
}
use install_scope.Common.Int.{ℤ}
use install_scope.Common.Text.{Text}
use install_scope.Recorder.FdTable.{
  FdTable, FdTarget, file, socket, pid_eq, is_negative, get, socket_peer, peer_of, working_dir,
  fork,
}
use install_scope.Recorder.FdTable.Updates.{pid_eq_iff}
use install_scope.Recorder.FdTable.Calls.{
  Call, make, call_open_file, call_open_socket, call_set_socket_peer, call_close, call_fork,
  call_process_exited, call_set_cwd, call_seed_cwd, make_all, View, at_pid, nothing_open, referring,
  given, meaning,
}
use install_scope.Recorder.FdTable.Refinement.{view, view-make, get-view}

-- The process whose entries a call changes: of a fork, the child.
abbrev pub changed_pid : Call → ℕ
changed_pid (call_open_file pid _ _ _) = pid
changed_pid (call_open_socket pid _ _) = pid
changed_pid (call_set_socket_peer pid _ _ _) = pid
changed_pid (call_close pid _) = pid
changed_pid (call_fork _ child) = child
changed_pid (call_process_exited pid) = pid
changed_pid (call_set_cwd pid _) = pid
changed_pid (call_seed_cwd pid _) = pid

-- Two views of one process.
abbrev SameFor : ℕ → View → View → Type 0
SameFor p v v' = (v'.open_in p ≡ v.open_in p) × (v'.dir_of p ≡ v.dir_of p)

module _ (p : ℕ) where
  not_at {ℓ} : {V : Type ℓ} (f : ℕ → V) (pid : ℕ) (v : V) → pid ≢ p → at_pid f pid v p ≡ f p
  not_at f pid v apart =
      rw (not_true (pid_eq p pid) (λ e. apart (sym ((pid_eq_iff p pid).0 e)))) refl

  not_given {ℓ} :
      {V : Type ℓ} (f : ℕ → Option V) (pid : ℕ) (o : Option V) → pid ≢ p → given f pid o p ≡ f p
  not_given f pid none apart = refl
  not_given f pid (some v) apart = not_at f pid (some v) apart

  not_referring :
      (v : View) (pid : ℕ) (fd : ℤ) (target : FdTarget)
      → pid ≢ p
      → SameFor p v (referring v pid fd target)
  not_referring v pid fd target apart = elim (Bool-cases (is_negative fd)) [
    | inl negative ↦ rw negative (refl, refl)
    | inr usable ↦ rw usable (not_at v.open_in pid _ apart, refl)
  ]

  not_seeded :
      (v : View) (pid : ℕ) (dir : Text) → pid ≢ p → SameFor p v (meaning (call_seed_cwd pid dir) v)
  not_seeded v pid dir apart = elim (Option-cases (v.dir_of pid)) [
    | inl e ↦ rw e (refl, not_at v.dir_of pid (some dir) apart)
    | inr (d, e) ↦ rw e (refl, refl)
  ]

  -- What a call means for a process that it does not change.
  meaning_elsewhere : (c : Call) (v : View) → changed_pid c ≢ p → SameFor p v (meaning c v)
  meaning_elsewhere (call_open_file pid fd path origin) v apart =
      not_referring v pid fd (file path origin) apart
  meaning_elsewhere (call_open_socket pid fd description) v apart =
      not_referring v pid fd (socket description none none) apart
  meaning_elsewhere (call_set_socket_peer pid fd ip port) v apart = not_referring v pid fd _ apart
  meaning_elsewhere (call_close pid fd) v apart = (not_at v.open_in pid _ apart, refl)
  meaning_elsewhere (call_fork parent child) v apart =
      (not_given v.open_in child _ apart, not_given v.dir_of child _ apart)
  meaning_elsewhere (call_process_exited pid) v apart =
      (not_at v.open_in pid none apart, not_at v.dir_of pid none apart)
  meaning_elsewhere (call_set_cwd pid dir) v apart = (refl, not_at v.dir_of pid (some dir) apart)
  meaning_elsewhere (call_seed_cwd pid dir) v apart = not_seeded v pid dir apart

  call_elsewhere :
      (c : Call) (t : FdTable) → changed_pid c ≢ p → SameFor p (view t) (view (make c t))
  call_elsewhere c t apart =
      let (opened, dir) = meaning_elsewhere c (view t) apart in
      (ap (λ v. v.open_in p) (view-make c t) ∙ opened, ap (λ v. v.dir_of p) (view-make c t) ∙ dir)

  calls_elsewhere :
      (calls : List Call) (t : FdTable)
      → All (λ c. changed_pid c ≢ p) calls
      → SameFor p (view t) (view (make_all calls t))
  calls_elsewhere [] t h = (refl, refl)
  calls_elsewhere (c ∷ calls) t (apart, h) =
      let (opened, dir) = call_elsewhere c t apart in
      let (opened', dir') = calls_elsewhere calls (make c t) h in (opened' ∙ opened, dir' ∙ dir)

-- A process finds in two tables the same descriptors, peers of them, and directory.
pub record FindsTheSame (p : ℕ) (t t' : FdTable) : Type 0 where
  pub descriptors : (fd : ℤ) → get t' p fd ≡ get t p fd
  pub peers : (fd : ℤ) → socket_peer t' p fd ≡ socket_peer t p fd
  pub directory : working_dir t' p ≡ working_dir t p

SameFor-FindsTheSame : (p : ℕ) (t t' : FdTable) → SameFor p (view t) (view t') → FindsTheSame p t t'
unfolding socket_peer working_dir
SameFor-FindsTheSame p t t' (opened, dir) =
    let same : (fd : ℤ) → get t' p fd ≡ get t p fd =
      λ fd. get-view t' p fd ∙ ap (λ o. nothing_open o fd) opened ∙ sym (get-view t p fd) in
    record { descriptors = same; peers = λ fd. ap peer_of (same fd); directory = dir }

-- For any table and two different processes, after one has forked the other: whatever calls then change
-- the child's entries only, in any number, leave the parent all that it had before the fork; and
-- whatever calls change the parent's only leave the child all that it got by the fork.
pub fork-isolates :
    (t : FdTable) (parent child : ℕ) (by_child by_parent : List Call)
    → parent ≢ child
    → All (λ c. changed_pid c ≡ child) by_child
    → All (λ c. changed_pid c ≡ parent) by_parent
    → FindsTheSame parent t (make_all by_child (fork t parent child))
      × FindsTheSame child (fork t parent child) (make_all by_parent (fork t parent child))
fork-isolates t parent child by_child by_parent apart h k =
    let others : All (λ c. changed_pid c ≢ parent) by_child =
      All-map _ _ (λ c e e'. apart (sym e' ∙ e)) by_child h in
    let others' : All (λ c. changed_pid c ≢ child) by_parent =
      All-map _ _ (λ c e e'. apart (sym e ∙ e')) by_parent k in
    (
      SameFor-FindsTheSame parent t (make_all by_child (fork t parent child)) (
          calls_elsewhere parent (call_fork parent child ∷ by_child) t
            ((λ e. apart (sym e)), others)),
      SameFor-FindsTheSame child (fork t parent child) (make_all by_parent (fork t parent child))
          (calls_elsewhere child by_parent (fork t parent child) others'),
    )
