-- ===== src/Recorder/Resolving/Honesty.antt =====
-- recorder/src/fdtable.rs: `resolve`, against what its answers may be.
use install_scope.Common.{
  ℕ, ◌≡◌, refl, ap, ◌∙◌, ◌≢◌, ◌⊎◌, inl, inr, true, false, Option, none, some, [], ◌∷◌, ◌++◌, ◌==◌,
  arith, Bool-cases,
}
use mathlib.Core.Path.{subst}
use install_scope.Common.Int.{ℤ}
use install_scope.Common.Text.{
  Text, text, text_eq, text_eq_iff, starts_with, strip_prefix, trim_end_matches,
  trim_end_where-prefix,
}
use install_scope.Core.Events.{
  TracedPath, PathOrigin, kernel, absolute, resolved_from_dirfd, unresolved, is_resolved,
}
use install_scope.Recorder.Paths.{normalize, join}
use install_scope.Recorder.Paths.Normal.{IsNormal, normalize-IsNormal}
use install_scope.Recorder.FdTable.{FdTable, FdTarget, file, socket, get, working_dir}
use install_scope.Recorder.Descriptors.{fd_annotation, fd_number}
use install_scope.Recorder.Resolving.{
  traced, in_directory, opened, from_table, from_annotation, resolve_relative, resolve_raw,
  from_kernel, resolve,
}

abbrev IsAbsolute : Text → Type 0
IsAbsolute path = starts_with (text "/") path ≡ true

-- A base that a relative path is joined on: the working directory, where the call names no other
-- directory; the annotation of the directory's descriptor; or the file that it was opened as.
pub data IsBase (t : FdTable) (pid : ℕ) : Option Text → Text → Type 0 where
  working :
      (dirfd : Option Text) (base : Text)
      → (dirfd ≡ none) ⊎ (dirfd ≡ some (text "AT_FDCWD"))
      → working_dir t pid ≡ some base
      → IsBase t pid dirfd base
  annotated : (arg base : Text) → fd_annotation arg ≡ some base → IsBase t pid (some arg) base
  registered :
      (arg base : Text) (fd : ℤ) (origin : PathOrigin)
      → fd_number arg ≡ some fd
      → get t pid fd ≡ some (file base origin)
      → IsBase t pid (some arg) base

-- Where a path comes from, by its origin: the annotation of the result, the argument, or the argument
-- joined on a base.
pub data IsBased (t : FdTable) (pid : ℕ) (dirfd raw_path ret_annotation : Option Text)
    : TracedPath → Type 0 where
  by_kernel :
      (a : Text)
      → ret_annotation ≡ some a
      → IsBased t pid dirfd raw_path ret_annotation (traced (normalize a) kernel)
  by_argument :
      (raw : Text)
      → raw_path ≡ some raw
      → IsBased t pid dirfd raw_path ret_annotation (traced (normalize raw) absolute)
  by_base :
      (raw base : Text)
      → raw_path ≡ some raw
      → IsBase t pid dirfd base
      → IsBased t pid dirfd raw_path ret_annotation (traced (join base raw) resolved_from_dirfd)

-- A path whose origin is known: absolute, with nothing left to resolve lexically.
pub record IsFound (t : FdTable) (pid : ℕ) (dirfd raw_path ret_annotation : Option Text)
    (p : TracedPath) : Type 0 where
  pub resolved : is_resolved p ≡ true
  pub normal : IsNormal true p.path
  pub based : IsBased t pid dirfd raw_path ret_annotation p

-- The raw argument, as it was written, and said to be unresolved.
pub record IsVerbatim (raw_path : Option Text) (p : TracedPath) : Type 0 where
  pub origin : p.origin ≡ unresolved
  pub raw : raw_path ≡ some p.path
  pub relative : starts_with (text "/") p.path ≡ false

-- The argument joined on a base of the table that is itself relative: an answer that says more than is
-- known.
pub record IsAdrift (t : FdTable) (pid : ℕ) (dirfd raw_path : Option Text) (p : TracedPath)
    : Type 0 where
  pub argument : Text
  pub base : Text
  pub raw : raw_path ≡ some argument
  pub is_base : IsBase t pid dirfd base
  pub relative_base : starts_with (text "/") base ≡ false
  pub relative : starts_with (text "/") argument ≡ false
  pub joined : p ≡ traced (join base argument) resolved_from_dirfd

IsNormal-absolute : (path : Text) → IsAbsolute path → IsNormal true (normalize path)
IsNormal-absolute path h = subst (λ a. IsNormal a (normalize path)) h (normalize-IsNormal path)

trimmed_slash :
    (c : ℕ) (dir kept cut relative : Text)
    → IsAbsolute (c ∷ dir)
    → c ∷ dir ≡ kept ++ cut
    → IsAbsolute (kept ++ text "/" ++ relative)
unfolding starts_with strip_prefix
trimmed_slash c dir [] cut relative h e = refl
trimmed_slash c dir (k ∷ kept) cut relative h e = ground arith

slash_trimmed :
    (dir relative : Text)
    → IsAbsolute dir
    → IsAbsolute (trim_end_matches b'/' dir ++ text "/" ++ relative)
slash_trimmed [] relative h = absurd (unfold starts_with strip_prefix in ground arith)
slash_trimmed (c ∷ dir) relative h =
    let (dropped, e) = trim_end_where-prefix (λ x. x == b'/') (c ∷ dir) in
    trimmed_slash c dir (trim_end_matches b'/' (c ∷ dir)) dropped relative h e

joined-IsNormal : (dir relative : Text) → IsAbsolute dir → IsNormal true (join dir relative)
unfolding join
joined-IsNormal dir relative h = elim (Bool-cases (starts_with (text "/") relative)) [
  | inl itself ↦ rw itself (IsNormal-absolute relative itself)
  | inr below ↦ rw below (
      IsNormal-absolute (trim_end_matches b'/' dir ++ text "/" ++ relative)
        (slash_trimmed dir relative h))
]

IsAbsolute-normal : (path : Text) → IsNormal true path → IsAbsolute path
unfolding starts_with strip_prefix
IsAbsolute-normal path n = ap (starts_with (text "/")) n.written ∙ refl

resolved_of :
    (path : Text) (origin : PathOrigin)
    → origin ≢ unresolved
    → IsAbsolute path
    → is_resolved (traced path origin) ≡ true
unfolding is_resolved
resolved_of path kernel known h = h
resolved_of path absolute known h = h
resolved_of path resolved_from_dirfd known h = h
resolved_of path unresolved known h = absurd (known refl)

module _ (t : FdTable) (pid : ℕ) (ret : Option Text) where
  -- One answer of `resolve`.
  abbrev IsHonest : Option Text → Option Text → TracedPath → Type 0
  IsHonest dirfd raw_path p =
      IsFound t pid dirfd raw_path ret p ⊎ IsVerbatim raw_path p ⊎ IsAdrift t pid dirfd raw_path p

  found :
      (dirfd raw_path : Option Text) (path : Text) (origin : PathOrigin)
      → origin ≢ unresolved
      → IsNormal true path
      → IsBased t pid dirfd raw_path ret (traced path origin)
      → IsHonest dirfd raw_path (traced path origin)
  found dirfd raw_path path origin known n based = inl (record {
    resolved = resolved_of path origin known (IsAbsolute-normal path n);
    normal = n;
    based = based;
  })

  module _ (raw : Text) (below : starts_with (text "/") raw ≡ false) where
    verbatim : (dirfd : Option Text) → IsHonest dirfd (some raw) (traced raw unresolved)
    verbatim dirfd = inr (inl (record { origin = refl; raw = refl; relative = below }))

    joined :
        (dirfd : Option Text) (dir : Text)
        → IsBase t pid dirfd dir
        → IsHonest dirfd (some raw) (traced (join dir raw) resolved_from_dirfd)
    joined dirfd dir base = elim (Bool-cases (starts_with (text "/") dir)) [
      | inl h ↦
          found dirfd (some raw) (join dir raw) resolved_from_dirfd (λ e. cc)
            (joined-IsNormal dir raw h) (by_base raw dir refl base)
      | inr other ↦ inr (
          inr (record {
            argument = raw;
            base = dir;
            raw = refl;
            is_base = base;
            relative_base = other;
            relative = below;
            joined = refl;
          }))
    ]

    in_directory-IsHonest :
        (dirfd o : Option Text)
        → (dirfd ≡ none) ⊎ (dirfd ≡ some (text "AT_FDCWD"))
        → working_dir t pid ≡ o
        → IsHonest dirfd (some raw) (in_directory o raw)
    in_directory-IsHonest dirfd none here e = verbatim dirfd
    in_directory-IsHonest dirfd (some dir) here e = joined dirfd dir (working dirfd dir here e)

    from_table-IsHonest :
        (arg : Text) (fd : Option ℤ) (o : Option FdTarget)
        → fd_number arg ≡ fd
        → opened t pid fd ≡ o
        → IsHonest (some arg) (some raw) (from_table o raw)
    from_table-IsHonest arg fd none _ e = verbatim (some arg)
    from_table-IsHonest arg fd (some (socket _ _ _)) _ e = verbatim (some arg)
    from_table-IsHonest arg none (some (file path origin)) _ e = absurd (ground arith)
    from_table-IsHonest arg (some fd) (some (file path origin)) number e =
        joined (some arg) path (registered arg path fd origin number e)

    from_annotation-IsHonest :
        (arg : Text) (o : Option Text) (otherwise : TracedPath)
        → fd_annotation arg ≡ o
        → IsHonest (some arg) (some raw) otherwise
        → IsHonest (some arg) (some raw) (from_annotation o raw otherwise)
    from_annotation-IsHonest arg none otherwise _ h = h
    from_annotation-IsHonest arg (some annotation) otherwise e h =
        elim (Bool-cases (starts_with (text "/") annotation)) [
          | inl base ↦ rw base (joined (some arg) annotation (annotated arg annotation e))
          | inr other ↦ rw other h
        ]

    relative-IsHonest :
        (dirfd : Option Text) → IsHonest dirfd (some raw) (resolve_relative t pid dirfd raw)
    relative-IsHonest none = in_directory-IsHonest none (working_dir t pid) (inl refl) refl
    relative-IsHonest (some arg) = elim (Bool-cases (text_eq arg (text "AT_FDCWD"))) [
      | inl cwd ↦ rw cwd (
          in_directory-IsHonest (some arg) (working_dir t pid)
            (inr (ap some ((text_eq_iff arg (text "AT_FDCWD")).0 cwd))) refl)
      | inr other ↦ rw other (
          from_annotation-IsHonest arg (fd_annotation arg)
            (from_table (opened t pid (fd_number arg)) raw) refl
            (from_table-IsHonest arg (fd_number arg) (opened t pid (fd_number arg)) refl refl))
    ]

  -- The answer, or none without a path.
  abbrev AreHonest : Option Text → Option Text → Option TracedPath → Type 0
  AreHonest dirfd raw_path none = Unit
  AreHonest dirfd raw_path (some p) = IsHonest dirfd raw_path p

  raw-AreHonest :
      (dirfd raw_path : Option Text) → AreHonest dirfd raw_path (resolve_raw t pid dirfd raw_path)
  raw-AreHonest dirfd none = tt
  raw-AreHonest dirfd (some raw) = elim (Bool-cases (starts_with (text "/") raw)) [
    | inl rooted ↦ rw rooted (
        found dirfd (some raw) (normalize raw) absolute (λ e. cc) (IsNormal-absolute raw rooted)
          (by_argument raw refl))
    | inr below ↦ rw below (relative-IsHonest raw below dirfd)
  ]

  kernel-AreHonest :
      (dirfd raw_path annotation : Option Text)
      → ret ≡ annotation
      → AreHonest dirfd raw_path (from_kernel annotation (resolve_raw t pid dirfd raw_path))
  kernel-AreHonest dirfd raw_path none _ = raw-AreHonest dirfd raw_path
  kernel-AreHonest dirfd raw_path (some a) e = elim (Bool-cases (starts_with (text "/") a)) [
    | inl rooted ↦ rw rooted (
        found dirfd raw_path (normalize a) kernel (λ q. cc) (IsNormal-absolute a rooted)
          (by_kernel a e))
    | inr other ↦ rw other (raw-AreHonest dirfd raw_path)
  ]

-- For any table, every answer of `resolve` is one of three things: a resolved path, absolute and normal,
-- that is the annotation of the result, the argument, or the argument joined on an absolute base that
-- the annotation of its descriptor or the table gives; the raw argument as it was written, relative,
-- and said to be unresolved; or the relative argument joined on a relative base of the table, which is
-- reported as resolved all the same.
pub resolve-IsHonest :
    (t : FdTable) (pid : ℕ) (dirfd_arg raw_path ret_annotation : Option Text) (p : TracedPath)
    → resolve t pid dirfd_arg raw_path ret_annotation ≡ some p
    → IsFound t pid dirfd_arg raw_path ret_annotation p
      ⊎ IsVerbatim raw_path p
      ⊎ IsAdrift t pid dirfd_arg raw_path p
unfolding resolve
resolve-IsHonest t pid dirfd_arg raw_path ret_annotation p e =
    subst (AreHonest t pid ret_annotation dirfd_arg raw_path) e
      (kernel-AreHonest t pid ret_annotation dirfd_arg raw_path ret_annotation refl)
