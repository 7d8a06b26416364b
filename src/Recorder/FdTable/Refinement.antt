-- ===== src/Recorder/FdTable/Refinement.antt =====
-- recorder/src/fdtable.rs: the table implements what its calls mean.
use mathlib.Core.Path.{fun_ext}
use mathlib.Core.Option.{map}
use install_scope.Common.{
  ℕ, ◌≡◌, refl, ap, ap₂, ◌∙◌, inl, inr, Bool, true, false, Option, none, some, List, [], ◌∷◌,
  if◌then◌else◌, Option-cases, Bool-cases,
}
use install_scope.Common.Int.{ℤ}
use install_scope.Common.Text.{Text}
use install_scope.Recorder.Maps.{lookup, insert, remove, lookup-insert, lookup-remove}
use install_scope.Recorder.FdTable.{
  FdTarget, file, socket, FdTable, new_table, pid_eq, fd_eq, is_negative, descriptors, or_default,
  put, open_file, open_socket, with_peer, set_socket_peer, get, socket_peer, peer_of, close,
  close_in, seeded, copied, fork, process_exited, set_cwd, working_dir, seed_cwd,
}
use install_scope.Recorder.FdTable.Updates.{pid_eq_iff, fd_eq_iff}
use install_scope.Recorder.FdTable.Calls.{
  Call, call_open_file, call_open_socket, call_set_socket_peer, call_close, call_fork,
  call_process_exited, call_set_cwd, call_seed_cwd, make, make_all, Descriptors, View, at_pid,
  at_fd, nothing_open, referring, given, closed_in, meaning, meaning_all, empty_view,
}

abbrev reading : List (ℤ × FdTarget) → Descriptors
reading table fd = lookup fd_eq fd table

abbrev pub view : FdTable → View
view t = record {
  open_in = λ p. map reading (lookup pid_eq p t.per_pid);
  dir_of = λ p. lookup pid_eq p t.cwd;
}

view_path :
    (v v' : View)
    → ((p : ℕ) → v.open_in p ≡ v'.open_in p)
    → ((p : ℕ) → v.dir_of p ≡ v'.dir_of p)
    → v ≡ v'
view_path v v' f g = ap₂ (λ x y. record { open_in = x; dir_of = y }) (fun_ext f) (fun_ext g)

map-if :
    (b : Bool) (o o' : Option (List (ℤ × FdTarget)))
    → map reading (if b then o else o') ≡ (if b then map reading o else map reading o')
map-if true o o' = refl
map-if false o o' = refl

reading-insert :
    (table : List (ℤ × FdTarget)) (fd : ℤ) (target : FdTarget)
    → reading (insert fd_eq fd target table) ≡ at_fd (reading table) fd (some target)
reading-insert table fd target = fun_ext (λ d. lookup-insert fd_eq fd_eq_iff d fd target table)

reading-remove :
    (table : List (ℤ × FdTarget)) (fd : ℤ)
    → reading (remove fd_eq fd table) ≡ at_fd (reading table) fd none
reading-remove table fd = fun_ext (λ d. lookup-remove fd_eq fd_eq_iff d fd table)

open_in-insert :
    (m : List (ℕ × List (ℤ × FdTarget))) (pid p : ℕ) (table : List (ℤ × FdTarget))
    → map reading (lookup pid_eq p (insert pid_eq pid table m))
      ≡ at_pid (λ q. map reading (lookup pid_eq q m)) pid (some (reading table)) p
open_in-insert m pid p table =
    ap (map reading) (lookup-insert pid_eq pid_eq_iff p pid table m)
    ∙ map-if (pid_eq p pid) (some table) (lookup pid_eq p m)

open_in-remove :
    (m : List (ℕ × List (ℤ × FdTarget))) (pid p : ℕ)
    → map reading (lookup pid_eq p (remove pid_eq pid m))
      ≡ at_pid (λ q. map reading (lookup pid_eq q m)) pid none p
open_in-remove m pid p =
    ap (map reading) (lookup-remove pid_eq pid_eq_iff p pid m)
    ∙ map-if (pid_eq p pid) none (lookup pid_eq p m)

reading-or_default :
    (o : Option (List (ℤ × FdTarget))) → reading (or_default o) ≡ nothing_open (map reading o)
reading-or_default none = fun_ext (λ d. refl)
reading-or_default (some table) = fun_ext (λ d. refl)

view-put :
    (t : FdTable) (pid : ℕ) (fd : ℤ) (target : FdTarget)
    → view (put t pid fd target) ≡ record (view t) {
      open_in =
          at_pid
            (view t).open_in
            pid
            (some (at_fd (nothing_open ((view t).open_in pid)) fd (some target)));
    }
view-put t pid fd target =
    let changed =
      reading-insert (descriptors t pid) fd target
      ∙ ap (λ f. at_fd f fd (some target)) (reading-or_default (lookup pid_eq pid t.per_pid)) in
    view_path _ _
      (λ p.
        open_in-insert t.per_pid pid p (insert fd_eq fd target (descriptors t pid))
        ∙ ap (λ f. at_pid (view t).open_in pid (some f) p) changed)
      (λ p. refl)

view-unless_negative :
    (t : FdTable) (pid : ℕ) (fd : ℤ) (target : FdTarget)
    → view (if is_negative fd then t else put t pid fd target) ≡ referring (view t) pid fd target
view-unless_negative t pid fd target = elim (Bool-cases (is_negative fd)) [
  | inl negative ↦ rw negative refl
  | inr usable ↦ rw usable (view-put t pid fd target)
]

view-close_in :
    (t : FdTable) (pid : ℕ) (fd : ℤ) (o : Option (List (ℤ × FdTarget)))
    → lookup pid_eq pid t.per_pid ≡ o
    → view (close_in o t pid fd)
      ≡ record (view t) { open_in = at_pid (view t).open_in pid (closed_in (map reading o) fd) }
view-close_in t pid fd none e =
    view_path _ _
      (λ p. elim (Bool-cases (pid_eq p pid)) [
        | inl here ↦ rw here (
            ap (λ q. map reading (lookup pid_eq q t.per_pid)) ((pid_eq_iff p pid).0 here)
            ∙ ap (map reading) e)
        | inr elsewhere ↦ rw elsewhere refl
      ])
      (λ p. refl)
view-close_in t pid fd (some table) e =
    view_path _ _
      (λ p.
        open_in-insert t.per_pid pid p (remove fd_eq fd table)
        ∙ ap (λ f. at_pid (view t).open_in pid (some f) p) (reading-remove table fd))
      (λ p. refl)

copied_tables :
    (o : Option (List (ℤ × FdTarget))) (child p : ℕ) (m : List (ℕ × List (ℤ × FdTarget)))
    → map reading (lookup pid_eq p (copied o child m))
      ≡ given (λ q. map reading (lookup pid_eq q m)) child (map reading o) p
copied_tables none child p m = refl
copied_tables (some table) child p m = open_in-insert m child p table

copied_dirs :
    (o : Option Text) (child p : ℕ) (m : List (ℕ × Text))
    → lookup pid_eq p (copied o child m) ≡ given (λ q. lookup pid_eq q m) child o p
copied_dirs none child p m = refl
copied_dirs (some dir) child p m = lookup-insert pid_eq pid_eq_iff p child dir m

view-seeded :
    (o : Option Text) (t : FdTable) (pid : ℕ) (dir : Text)
    → view (seeded o t pid dir) ≡ record (view t) {
      dir_of = elim o [ none ↦ at_pid (view t).dir_of pid (some dir) | some _ ↦ (view t).dir_of ];
    }
view-seeded none t pid dir =
    view_path _ _ (λ p. refl) (λ p. lookup-insert pid_eq pid_eq_iff p pid dir t.cwd)
view-seeded (some _) t pid dir = refl

-- One call changes the view as it means to.
pub view-make : (c : Call) (t : FdTable) → view (make c t) ≡ meaning c (view t)
unfolding open_file open_socket set_socket_peer close fork process_exited set_cwd seed_cwd
view-make (call_open_file pid fd path origin) t = view-unless_negative t pid fd (file path origin)
view-make (call_open_socket pid fd description) t =
    view-unless_negative t pid fd (socket description none none)
view-make (call_set_socket_peer pid fd ip port) t =
    view-unless_negative t pid fd (with_peer (lookup fd_eq fd (descriptors t pid)) ip port)
    ∙ ap (λ (f : Descriptors). referring (view t) pid fd (with_peer (f fd) ip port))
        (reading-or_default (lookup pid_eq pid t.per_pid))
view-make (call_close pid fd) t = view-close_in t pid fd (lookup pid_eq pid t.per_pid) refl
view-make (call_fork parent child) t =
    view_path _ _ (λ p. copied_tables (lookup pid_eq parent t.per_pid) child p t.per_pid)
      (λ p. copied_dirs (lookup pid_eq parent t.cwd) child p t.cwd)
view-make (call_process_exited pid) t =
    view_path _ _ (λ p. open_in-remove t.per_pid pid p)
      (λ p. lookup-remove pid_eq pid_eq_iff p pid t.cwd)
view-make (call_set_cwd pid dir) t =
    view_path _ _ (λ p. refl) (λ p. lookup-insert pid_eq pid_eq_iff p pid dir t.cwd)
view-make (call_seed_cwd pid dir) t = view-seeded (lookup pid_eq pid t.cwd) t pid dir

view-make_all :
    (calls : List Call) (t : FdTable) → view (make_all calls t) ≡ meaning_all calls (view t)
view-make_all [] t = refl
view-make_all (c ∷ calls) t =
    view-make_all calls (make c t) ∙ ap (meaning_all calls) (view-make c t)

pub get-view :
    (t : FdTable) (pid : ℕ) (fd : ℤ) → get t pid fd ≡ nothing_open ((view t).open_in pid) fd
unfolding get
get-view t pid fd = elim (Option-cases (lookup pid_eq pid t.per_pid)) [
  | inl e ↦ rw e refl
  | inr (table, e) ↦ rw e refl
]

-- For any calls on a new table, in any order, and any process and descriptor: what the descriptor
-- refers to, the peer that is known of it, and the directory of the process are those that the
-- calls give one after the other to functions of a process and a descriptor.
pub make_all_refines :
    (calls : List Call) (pid : ℕ) (fd : ℤ)
    → (get (make_all calls new_table) pid fd
        ≡ nothing_open ((meaning_all calls empty_view).open_in pid) fd)
      × (socket_peer (make_all calls new_table) pid fd
          ≡ peer_of (nothing_open ((meaning_all calls empty_view).open_in pid) fd))
      × (working_dir (make_all calls new_table) pid ≡ (meaning_all calls empty_view).dir_of pid)
unfolding socket_peer working_dir
make_all_refines calls pid fd =
    let t = make_all calls new_table in
    let same : view t ≡ meaning_all calls empty_view = view-make_all calls new_table in
    let read = get-view t pid fd ∙ ap (λ v. nothing_open (v.open_in pid) fd) same in
    (read, ap peer_of read, ap (λ v. v.dir_of pid) same)
