-- ===== src/Exec/KeyArgv.antt =====
-- crates/frostbuild-exec/src/lib.rs: `action_key_argv`, the arguments that go into an action's key, and
-- that they determine all commands of the action and its directories.
use frostbuild.Base.{
  Bool, true, false, not, ◌&&◌, List, [], ◌∷◌, ◌++◌, All, In, is_empty, ◌≡◌, ◌≢◌, inl, refl, sym,
  ◌∙◌, subst, if◌then◌else◌, append-nil,
}
use frostbuild.Base.Text.{Text, codes, text_eq, text_eq_iff}
use frostbuild.Graph.{ActionNode}

unfoldable pub preserve_tag : Text
preserve_tag = 0 ∷ codes "frost-preserve-outputs"

unfoldable pub clean_tag : Text
clean_tag = 0 ∷ codes "frost-clean-dir"

unfoldable pub next_tag : Text
next_tag = 0 ∷ codes "frost-next-command"

abbrev pub push_preserve : Bool → List Text → List Text
push_preserve true rest = preserve_tag ∷ rest
push_preserve false rest = rest

abbrev pub push_clean_dirs : List Text → List Text → List Text
push_clean_dirs [] rest = rest
push_clean_dirs (directory ∷ dirs) rest = clean_tag ∷ directory ∷ push_clean_dirs dirs rest

abbrev pub push_commands : List (List Text) → List Text
push_commands [] = []
push_commands (command ∷ commands) = next_tag ∷ (command ++ push_commands commands)

unfoldable pub action_key_argv : ActionNode → List Text
action_key_argv action =
    if is_empty action.followup_argv && (is_empty action.clean_dirs && not action.preserve_outputs)
    then action.argv
    else action.argv
      ++ push_preserve action.preserve_outputs
          (push_clean_dirs action.clean_dirs (push_commands action.followup_argv))

-- An argument that a process can be given: it has no NUL.
abbrev pub IsArgument : Text → Type 0
IsArgument arg = ¬ In 0 arg

-- The short cut makes no difference.
in_full :
    (argv : List Text) (preserve : Bool) (dirs : List Text) (commands : List (List Text))
    → (if is_empty commands && (is_empty dirs && not preserve)
        then argv
        else argv ++ push_preserve preserve (push_clean_dirs dirs (push_commands commands)))
      ≡ argv ++ push_preserve preserve (push_clean_dirs dirs (push_commands commands))
in_full argv true [] [] = refl
in_full argv false [] [] = sym (append-nil argv)
in_full argv preserve (d ∷ dirs) [] = refl
in_full argv preserve dirs (c ∷ commands) = refl

-- What stands behind arguments: nothing, or a tag.
data Tagged : List Text → Type 0 where
  nothing : Tagged []
  tag : (rest : Text) (more : List Text) → Tagged ((0 ∷ rest) ∷ more)

split-arguments :
    (xs ys r s : List Text)
    → All IsArgument xs
    → All IsArgument ys
    → Tagged r
    → Tagged s
    → xs ++ r ≡ ys ++ s
    → (xs ≡ ys) × (r ≡ s)
split-arguments [] [] r s a b t u e = (refl, e)
split-arguments (x ∷ xs) (y ∷ ys) r s a b t u e =
    let (front, back) = split-arguments xs ys r s a.1 b.1 t u (cc (e)) in (cc (e, front), back)
split-arguments [] (y ∷ ys) _ s a b nothing u e = absurd (cc (e))
split-arguments [] (y ∷ ys) _ s a b (tag rest more) u e =
    absurd (b.0 (subst (In 0) (head_of_cons e) (inl refl)))
  where
    head_of_cons : {x y : Text} {xs ys : List Text} → x ∷ xs ≡ y ∷ ys → x ≡ y
    head_of_cons h = cc (h)
split-arguments (x ∷ xs) [] r _ a b t nothing e = absurd (cc (e))
split-arguments (x ∷ xs) [] r _ a b t (tag rest more) e =
    absurd (a.0 (subst (In 0) (head_of_cons (sym e)) (inl refl)))
  where
    head_of_cons : {x y : Text} {xs ys : List Text} → x ∷ xs ≡ y ∷ ys → x ≡ y
    head_of_cons h = cc (h)

push_commands-Tagged : (commands : List (List Text)) → Tagged (push_commands commands)
unfolding next_tag
push_commands-Tagged [] = nothing
push_commands-Tagged (c ∷ commands) = tag (codes "frost-next-command") (c ++ push_commands commands)

push_commands-injective :
    (cs ds : List (List Text))
    → All (All IsArgument) cs
    → All (All IsArgument) ds
    → push_commands cs ≡ push_commands ds
    → cs ≡ ds
push_commands-injective [] [] a b e = refl
push_commands-injective [] (d ∷ ds) a b e = absurd (cc (e))
push_commands-injective (c ∷ cs) [] a b e = absurd (cc (e))
push_commands-injective (c ∷ cs) (d ∷ ds) a b e =
    let (front, back) =
      split-arguments c d (push_commands cs) (push_commands ds) a.0 b.0 (push_commands-Tagged cs)
        (push_commands-Tagged ds) (cc (e)) in
    cc (front, push_commands-injective cs ds a.1 b.1 back)

apart : (s t : Text) → text_eq s t ≡ false → s ≢ t
apart s t differ e = cc (sym differ ∙ (text_eq_iff s t).1 e)

clean-next : clean_tag ≢ next_tag
unfolding clean_tag next_tag text_eq
clean-next = apart clean_tag next_tag refl

preserve-next : preserve_tag ≢ next_tag
unfolding preserve_tag next_tag text_eq
preserve-next = apart preserve_tag next_tag refl

preserve-clean : preserve_tag ≢ clean_tag
unfolding preserve_tag clean_tag text_eq
preserve-clean = apart preserve_tag clean_tag refl

same_head : {x y : Text} {xs ys : List Text} → x ∷ xs ≡ y ∷ ys → x ≡ y
same_head e = cc (e)

same_tail : {x y : Text} {xs ys : List Text} → x ∷ xs ≡ y ∷ ys → xs ≡ ys
same_tail e = cc (e)

-- The list does not start with the tag.
abbrev Without : Text → List Text → Type 0
Without t list = (rest : List Text) → list ≢ t ∷ rest

push_commands-Without :
    (t : Text) (cs : List (List Text)) → t ≢ next_tag → Without t (push_commands cs)
push_commands-Without t [] ne rest e = absurd (cc (e))
push_commands-Without t (c ∷ cs) ne rest e = ne (sym (same_head e))

push_clean_dirs-Without :
    (t : Text) (xs r : List Text) → t ≢ clean_tag → Without t r → Without t (push_clean_dirs xs r)
push_clean_dirs-Without t [] r ne w rest e = w rest e
push_clean_dirs-Without t (x ∷ xs) r ne w rest e = ne (sym (same_head e))

push_clean_dirs-injective :
    (xs ys r s : List Text)
    → Without clean_tag r
    → Without clean_tag s
    → push_clean_dirs xs r ≡ push_clean_dirs ys s
    → (xs ≡ ys) × (r ≡ s)
push_clean_dirs-injective [] [] r s v w e = (refl, e)
push_clean_dirs-injective [] (y ∷ ys) r s v w e = absurd (v (y ∷ push_clean_dirs ys s) e)
push_clean_dirs-injective (x ∷ xs) [] r s v w e = absurd (w (x ∷ push_clean_dirs xs r) (sym e))
push_clean_dirs-injective (x ∷ xs) (y ∷ ys) r s v w e =
    let (front, back) = push_clean_dirs-injective xs ys r s v w (same_tail (same_tail e)) in
    (cc (same_head (same_tail e), front), back)

push_preserve-injective :
    (p q : Bool) (r s : List Text)
    → Without preserve_tag r
    → Without preserve_tag s
    → push_preserve p r ≡ push_preserve q s
    → (p ≡ q) × (r ≡ s)
push_preserve-injective true true r s v w e = (refl, same_tail e)
push_preserve-injective false false r s v w e = (refl, e)
push_preserve-injective true false r s v w e = absurd (w r (sym e))
push_preserve-injective false true r s v w e = absurd (v s e)

-- What stands behind the first command's arguments.
abbrev tail_of : ActionNode → List Text
tail_of action =
    push_preserve action.preserve_outputs
      (push_clean_dirs action.clean_dirs (push_commands action.followup_argv))

tail_of-Tagged :
    (preserve : Bool) (dirs : List Text) (commands : List (List Text))
    → Tagged (push_preserve preserve (push_clean_dirs dirs (push_commands commands)))
unfolding preserve_tag clean_tag
tail_of-Tagged true dirs commands = tag (codes "frost-preserve-outputs") _
tail_of-Tagged false [] commands = push_commands-Tagged commands
tail_of-Tagged false (d ∷ dirs) commands = tag (codes "frost-clean-dir") _

-- Two actions whose commands have no NUL in their arguments, as those of a process never do, and
-- that put the same arguments into their keys, have the same first command, the same further
-- commands, the same directories to clean, and both keep their outputs or neither does.
pub action_key_argv-unambiguous :
    (a b : ActionNode)
    → All IsArgument a.argv
    → All IsArgument b.argv
    → All (All IsArgument) a.followup_argv
    → All (All IsArgument) b.followup_argv
    → action_key_argv a ≡ action_key_argv b
    → (a.argv ≡ b.argv)
      × (a.followup_argv ≡ b.followup_argv)
      × (a.clean_dirs ≡ b.clean_dirs)
      × (a.preserve_outputs ≡ b.preserve_outputs)
unfolding action_key_argv
action_key_argv-unambiguous a b p q cs ds e =
    let (first, back) =
      split-arguments a.argv b.argv (tail_of a) (tail_of b) p q
        (tail_of-Tagged a.preserve_outputs a.clean_dirs a.followup_argv)
        (tail_of-Tagged b.preserve_outputs b.clean_dirs b.followup_argv)
        (sym (in_full a.argv a.preserve_outputs a.clean_dirs a.followup_argv)
          ∙ e
          ∙ in_full b.argv b.preserve_outputs b.clean_dirs b.followup_argv) in
    let (keeps, behind) =
      push_preserve-injective a.preserve_outputs b.preserve_outputs
        (push_clean_dirs a.clean_dirs (push_commands a.followup_argv))
        (push_clean_dirs b.clean_dirs (push_commands b.followup_argv))
        (push_clean_dirs-Without preserve_tag a.clean_dirs (push_commands a.followup_argv)
          preserve-clean (push_commands-Without preserve_tag a.followup_argv preserve-next))
        (push_clean_dirs-Without preserve_tag b.clean_dirs (push_commands b.followup_argv)
          preserve-clean (push_commands-Without preserve_tag b.followup_argv preserve-next))
        back in
    let (dirs, commands) =
      push_clean_dirs-injective a.clean_dirs b.clean_dirs (push_commands a.followup_argv)
        (push_commands b.followup_argv) (push_commands-Without clean_tag a.followup_argv clean-next)
        (push_commands-Without clean_tag b.followup_argv clean-next) behind in
    (first, push_commands-injective a.followup_argv b.followup_argv cs ds commands, dirs, keeps)
