-- ===== src/Manifest/Fits.antt =====
-- The checks of one kind let through only what the rules of the kind allow.
use frostbuild.Base.{
  Bool, true, false, not, ◌&&◌, ◌||◌, [], map, ◌≡◌, ◌≢◌, ◌⊎◌, inl, inr, refl, ap, if◌then◌else◌,
  is_empty, ok, >>=-eq-ok,
}
use frostbuild.Base.Text.{Text, text_order}
use frostbuild.Manifest.{
  TargetKind, cc_binary, cc_library, cc_test, genrule, test, kofun_binary, command,
}
use frostbuild.Manifest.Raw.{RawTarget}
use frostbuild.Manifest.Names.{is_some}
use frostbuild.Manifest.Build.{
  Paths, trimmed, has_command_fields, has_genrule_fields, validate_kofun_binary_sources, check_env,
  check_cc, check_kofun_binary, check_genrule, check_direct, check_test, check_command, check_kind,
  target_of,
}
use frostbuild.Manifest.Rules.{
  NoCommandFields, NoGenruleFields, NoFlags, IsDirect, IsIsolated, FieldsFit,
}
use frostbuild.Manifest.Fields.{
  bail_then, bail_ok, or_false, true_of, false_of, empty_of, nonempty_of, none_of,
  no_command_fields, check_env-HasValidEnv, kofun_source, All-is_isolated, check_steps-All,
}

module _ (name : Text) (spec : RawTarget) (paths : Paths) where
  no_genrule_fields :
      has_genrule_fields spec paths ≡ false → NoGenruleFields (target_of name spec paths)
  no_genrule_fields h =
      let (h1, r1) = or_false _ _ h in
      let (h2, h3) = or_false _ _ r1 in (none_of _ h1, empty_of _ h2, empty_of _ h3)

  no_flags :
      (not (is_empty spec.cflags) || not (is_empty spec.ldflags)) ≡ false
      → NoFlags (target_of name spec paths)
  no_flags h = let (h1, h2) = or_false _ _ h in (empty_of _ h1, empty_of _ h2)

  check_cc-FieldsFit :
      check_cc spec paths ≡ ok tt
      → (paths.srcs ≢ [])
        × NoGenruleFields (target_of name spec paths)
        × NoCommandFields (target_of name spec paths)
  unfolding check_cc
  check_cc-FieldsFit h =
      let (h1, r1) = bail_then _ _ h in
      let (h2, r2) = bail_then _ _ r1 in
      (nonempty_of _ h1, no_genrule_fields h2, no_command_fields name spec paths (bail_ok _ _ r2))

  check_kofun_binary-FieldsFit :
      check_kofun_binary spec paths ≡ ok tt → FieldsFit (target_of name spec paths) kofun_binary
  unfolding check_kofun_binary
  check_kofun_binary-FieldsFit h =
      let (_, h1, r1) = >>=-eq-ok (validate_kofun_binary_sources paths.srcs) _ h in
      let (h2, r2) = bail_then _ _ r1 in
      let (h3, h4) = or_false _ _ h2 in
      let (h5, r5) = bail_then _ _ r2 in
      (
        kofun_source paths.srcs h1,
        empty_of _ h3,
        no_flags h4,
        no_genrule_fields h5,
        no_command_fields name spec paths (bail_ok _ _ r5),
      )

  check_genrule-FieldsFit :
      check_genrule spec paths ≡ ok tt → FieldsFit (target_of name spec paths) genrule
  unfolding check_genrule
  check_genrule-FieldsFit h =
      let (h1, r1) = bail_then _ _ h in
      let (h2, r2) = bail_then _ _ r1 in
      let (h3, r3) = bail_then _ _ r2 in
      let (h4, r4) = bail_then _ _ r3 in
      (
        nonempty_of _ h1,
        nonempty_of _ h2,
        empty_of _ h3,
        no_flags h4,
        no_command_fields name spec paths (bail_ok _ _ r4),
      )

  check_direct-IsDirect : check_direct spec paths ≡ ok tt → IsDirect (target_of name spec paths)
  unfolding check_direct
  check_direct-IsDirect h =
      let (h1, r1) = bail_then _ _ h in
      let (h2, r2) = bail_then _ _ r1 in
      let (h3, r3) = or_false _ _ h2 in
      let (h4, r4) = or_false _ _ r3 in
      let (h5, h6) = or_false _ _ r4 in
      record {
        tool = true_of _ h1;
        plain = (ap (map _) (empty_of _ h3), empty_of _ h4, h5, none_of _ h6);
        env = check_env-HasValidEnv spec r2;
      }

  shell_or_IsDirect :
      (has_shell has_direct : Bool)
      → not (is_empty (trimmed spec.cmd)) ≡ has_shell
      → (if has_shell then has_direct else not has_direct) ≡ false
      → (has_shell && has_command_fields spec paths) ≡ false
      → (if has_direct then check_direct spec paths else ok tt) ≡ ok tt
      → ((trimmed spec.cmd ≢ []) × NoCommandFields (target_of name spec paths))
        ⊎ ((trimmed spec.cmd ≡ []) × IsDirect (target_of name spec paths))
  shell_or_IsDirect true false e h1 h2 h3 =
      inl (nonempty_of _ (false_of _ e refl), no_command_fields name spec paths h2)
  shell_or_IsDirect false true e h1 h2 h3 = inr (empty_of _ e, check_direct-IsDirect h3)
  shell_or_IsDirect true true e h1 h2 h3 = cc
  shell_or_IsDirect false false e h1 h2 h3 = cc

  check_test-FieldsFit : check_test spec paths ≡ ok tt → FieldsFit (target_of name spec paths) test
  unfolding check_test
  check_test-FieldsFit h =
      let (h1, r1) = bail_then _ _ h in
      let (h2, r2) = bail_then _ _ r1 in
      let (h3, r3) = bail_then _ _ r2 in
      let (h4, r4) = bail_then _ _ r3 in
      let (h5, r5) = bail_then _ _ r4 in
      (
        empty_of _ h2,
        empty_of _ h3,
        no_flags h4,
        shell_or_IsDirect (not (is_empty (trimmed spec.cmd))) (is_some spec.tool) refl h1 h5 r5,
      )

  check_command-IsIsolated :
      check_command spec paths ≡ ok tt → IsIsolated (target_of name spec paths)
  unfolding check_command
  check_command-IsIsolated h =
      let (h1, r1) = bail_then _ _ h in
      let (h2, r2) = bail_then _ _ r1 in
      let (h3, r3) = bail_then _ _ r2 in
      let (h4, r4) = bail_then _ _ r3 in
      let (h5, r5) = bail_then _ _ r4 in
      let (h6, r6) = bail_then _ _ r5 in
      let (_, h7, r7) = >>=-eq-ok (check_env spec) _ r6 in
      let (c1, s1) = or_false _ _ h6 in
      let (c2, s2) = or_false _ _ s1 in
      let (c3, s3) = or_false _ _ s2 in
      record {
        tool = true_of _ h1;
        outputs = (nonempty_of _ h2, All-is_isolated _ h3);
        clean_dirs = All-is_isolated _ h5;
        depfile = true_of _ h4;
        plain = (none_of _ c1, empty_of _ c2, empty_of _ c3, no_flags s3);
        env = check_env-HasValidEnv spec h7;
        steps = check_steps-All spec.steps r7;
      }

  pub check_kind-FieldsFit :
      (kind : TargetKind)
      → check_kind spec paths kind ≡ ok tt
      → FieldsFit (target_of name spec paths) kind
  check_kind-FieldsFit cc_binary h = check_cc-FieldsFit h
  check_kind-FieldsFit cc_library h = check_cc-FieldsFit h
  check_kind-FieldsFit cc_test h = check_cc-FieldsFit h
  check_kind-FieldsFit kofun_binary h = check_kofun_binary-FieldsFit h
  check_kind-FieldsFit genrule h = check_genrule-FieldsFit h
  check_kind-FieldsFit test h = check_test-FieldsFit h
  check_kind-FieldsFit command h = check_command-IsIsolated h
