-- ===== src/Results/Ownership.antt =====
-- An agent reaches only the rows of its own region (src/services/agent-dispatch.ts,
-- `writeAgentResult`).
use oo_workers.Prelude.{
  ℕ, ◌≡◌, refl, ◌∙◌, ap, Bool, true, false, not, List, [], ◌∷◌, some, opt_eq, keep, Bool-cases, inl,
  inr, and-true,
}
use oo_workers.Db.{MonitorType, Exec, update_where}
use oo_workers.Results.{Desk}
use oo_workers.Results.Agent.{
  AgentResult, is_owned, is_terminal, reported, finish_result, write_agent_result,
}

-- A row of another region, or of the master.
abbrev pub is_foreign : ℕ → Exec → Bool
is_foreign region r = not (opt_eq r.region_id (some region))

foreign_of_owned :
    (kind : MonitorType) (region id : ℕ) (r : Exec)
    → is_owned kind region id r ≡ true
    → is_foreign region r ≡ false
foreign_of_owned kind region id r h =
    let mine : opt_eq r.region_id (some region) ≡ true = (and-true _ _ h).1 in ap not mine

-- An update of owned rows that leaves their region alone does not touch the others.
keep_foreign-update_where :
    (kind : MonitorType) (region id : ℕ) (f : Exec → Exec) (rows : List Exec)
    → ((r : Exec) → (f r).region_id ≡ r.region_id)
    → keep (is_foreign region) (update_where (is_owned kind region id) f rows)
      ≡ keep (is_foreign region) rows
unfolding keep update_where
keep_foreign-update_where kind region id f [] same = refl
keep_foreign-update_where kind region id f (r ∷ rows) same =
    let rest = keep_foreign-update_where kind region id f rows same in
    elim (Bool-cases (is_owned kind region id r)) [
      | inl owned ↦
          let mine : is_foreign region r ≡ false = foreign_of_owned kind region id r owned in
          let mine' : is_foreign region (f r) ≡ false =
            ap (λ g. not (opt_eq g (some region))) (same r) ∙ mine in
          rw (owned, mine', mine, keep) rest
      | inr other ↦ rw other (ap (λ rs. cons_of (is_foreign region r) r rs) rest)
    ]
  where
    cons_of : Bool → Exec → List Exec → List Exec
    cons_of true x xs = x ∷ xs
    cons_of false x xs = xs

finish-rows :
    (region : ℕ) (b : AgentResult) (found : List Exec) (d : Desk)
    → (finish_result region b found d).0.rows ≡ d.rows
unfolding finish_result
finish-rows region b [] d = refl
finish-rows region b (r ∷ []) d = elim (Bool-cases (is_terminal b.status)) [
  | inl terminal ↦ rw terminal refl
  | inr waiting ↦ rw waiting refl
]
finish-rows region b (r ∷ r' ∷ rows) d = refl

-- Whatever an agent posts, the rows of other regions and of the master stay as they were, and so
-- does their order. (A browser check has its own writer, `writeQaAgentResult`.)
pub write_agent_result-foreign :
    (region : ℕ) (b : AgentResult) (now : ℕ) (d : Desk)
    → keep (is_foreign region) (write_agent_result region b now d).0.rows
      ≡ keep (is_foreign region) d.rows
unfolding write_agent_result
write_agent_result-foreign region b now d =
    ap (keep (is_foreign region)) (
      finish-rows region b (keep (is_owned b.type region b.execution_id) d.rows) (record d {
        rows = update_where (is_owned b.type region b.execution_id) (reported b now) d.rows;
      }))
    ∙ keep_foreign-update_where b.type region b.execution_id (reported b now) d.rows (λ r. refl)
