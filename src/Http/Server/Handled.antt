-- ===== src/Http/Server/Handled.antt =====
-- `handler` of http/server/server.go: its three loops as one list.
use lemo.Base.{◌≡◌, refl, sym, ap, ◌∙◌, List, [], ◌∷◌, ◌++◌, Option, none, some}
use lemo.Base.Io.{pure, ◌>>=◌, then_with, then_with_assoc, then_with-cong, then_with-pure}
use lemo.Http.Server.{
  Handler, Found, Site, unless_error, run_until_error, run_function, unless_failed, run_node,
}

module _ {S : Type 0} where
  abbrev pub as_list : Option (Handler S) → List (Handler S)
  as_list none = []
  as_list (some f) = f ∷ []

  run_until_error-append :
      (xs ys : List (Handler S)) (s : S)
      → run_until_error (xs ++ ys) s ≡ (run_until_error xs >>= unless_error (run_until_error ys)) s
  unfolding run_until_error
  run_until_error-append [] ys s = refl
  run_until_error-append (x ∷ xs) ys s =
      then_with-cong (x s) _ _ (λ e s'.
        elim e
          as (λ k.
            unless_error (run_until_error (xs ++ ys)) k s'
            ≡ then_with (unless_error (run_until_error xs) k s')
                (unless_error (run_until_error ys))) [
                  | none ↦ run_until_error-append xs ys s'
                  | some err ↦ refl
                ])
      ∙ sym (then_with_assoc (x s) _ _)

  run_function_lem :
      (f : Option (Handler S)) (s : S) → run_function f s ≡ run_until_error (as_list f) s
  unfolding run_until_error
  run_function_lem none s = refl
  run_function_lem (some f) s =
      sym (then_with-pure (f s))
      ∙ then_with-cong (f s) _ _ (λ e s'.
        elim e as (λ k. pure k s' ≡ unless_error (pure none) k s') [
          | none ↦ refl
          | some err ↦ refl
        ])

  -- One list after another, each ended by an error, is the two lists as one.
  joined :
      (site : Site S) (xs ys : List (Handler S)) (s : S)
      → ((run_until_error xs
            >>= unless_failed site (run_until_error ys >>= unless_failed site (pure tt))))
          s
        ≡ (run_until_error (xs ++ ys) >>= unless_failed site (pure tt)) s
  joined site xs ys s =
      then_with-cong (run_until_error xs s) _ _ (λ e s'.
        elim e
          as (λ k.
            unless_failed site (run_until_error ys >>= unless_failed site (pure tt)) k s'
            ≡ then_with (unless_error (run_until_error ys) k s') (unless_failed site (pure tt))) [
              | none ↦ refl
              | some err ↦ refl
            ])
      ∙ sym (then_with_assoc (run_until_error xs s) _ _)
      ∙ ap (λ r. then_with r (unless_failed site (pure tt))) (sym (run_until_error-append xs ys s))

  -- What `handler` does with a node is to run one list, `Before`, the function if there is one and
  -- `After`, up to the first error. `OnError` and `OnClose` are called for that error, and
  -- neither of them when there is none.
  pub run_node_one_list :
      (site : Site S) (n : Found S) (s : S)
      → run_node site n s
        ≡ (run_until_error (n.before ++ (as_list n.function ++ n.after))
              >>= unless_failed site (pure tt))
            s
  unfolding run_node
  run_node_one_list site n s =
      ap
        (λ f.
          (run_until_error n.before
              >>= unless_failed site (
                  f
                  >>= unless_failed site
                      (run_until_error n.after >>= unless_failed site (pure tt))))
            s)
        (λ i s'. run_function_lem n.function s' i)
      ∙ ap (λ f. (run_until_error n.before >>= unless_failed site f) s)
          (λ i s'. joined site (as_list n.function) n.after s' i)
      ∙ joined site n.before (as_list n.function ++ n.after) s
