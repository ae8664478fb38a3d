-- ===== src/Table/Copy/Extended.antt =====
-- What the steps of Table::copy_columns (misfits/table.cc) between the plan and the copying keep of two linked tables.
use misfits.Prelude.{ℕ, ◌≡◌, ◌≢◌, ◌-◌, []}
use misfits.Cfitsio.{⊤, Cfitsio}
use misfits.Cfitsio.Copying.{SparesColumns}
use misfits.Exception.{Action, gets, ◌>>=◌}
use misfits.Exception.Keeps.{Keeps, keeps_rules}
use misfits.Exception.Gives.{Gives, gets-Gives, pure-Gives}
use misfits.Store.{Store, check, fptr}
use misfits.Table.{num_rows, refresh}
use misfits.Table.Watched.{Keeps-ask, Watches, num_rows-Keeps, refresh-Keeps}
use misfits.Table.Copy.{CopyPlan, insert_planned, extend_rows}
use misfits.Table.Copy.Pair.{Pair, Ready, Spares-Ready, Linked, source_watch, dest_watch}

-- Where no column is planned to be new, none is inserted.
pub insert_none :
    {W : Type 0} ⦃c : Cfitsio W⦄ (Q : ⊤ → Store W → Type 0) (dest : ℕ) (plan : CopyPlan)
    (s : Store W)
    → plan.dest_ttype ≡ []
    → Q tt s
    → Gives Q (insert_planned dest plan s)
unfolding insert_planned
insert_none Q dest plan s none q =
    gets-Gives _ _ _ s (gets-Gives _ _ _ s (rw none (pure-Gives Q tt s q)))

module _ {W C : Type 0} ⦃c : Cfitsio W⦄ (p : Pair W C) (law : SparesColumns c p.content p.f p.g)
    (apart : p.src ≢ p.dest) where
  abbrev KeepsLinked : {A : Type 0} → Action (Store W) A → Type 0
  KeepsLinked m' = Keeps (Linked p) m'

  abbrev watch_source : Watches c (Ready p) (Linked p) p.src p.src_file p.n
  watch_source = source_watch p law apart

  abbrev watch_dest : Watches c (Ready p) (Linked p) p.dest p.dest_file p.m
  watch_dest = dest_watch p law apart

  num_source_rows : KeepsLinked (num_rows p.src)
  num_source_rows = num_rows-Keeps watch_source (λ h. Spares-Ready p _ (law.rows h))

  num_dest_rows : KeepsLinked (num_rows p.dest)
  num_dest_rows = num_rows-Keeps watch_dest (λ h. Spares-Ready p _ (law.rows h))

  insert_rows-Linked :
      (h after count : ℕ) → h ≡ p.g → KeepsLinked (check (c.insert_rows h after count))
  insert_rows-Linked h after count e =
      rw e (watch_dest.checks _ (Spares-Ready p _ (law.extends after count)))

  -- The rows are added to the destination.
  append-Linked : KeepsLinked (do
    file ← gets (λ s. (s.hdus p.dest).file)
    fitsptr ← gets (fptr file)
    first ← num_rows p.dest
    all ← num_rows p.src
    old ← num_rows p.dest
    check (c.insert_rows fitsptr first (all - old)))
  append-Linked =
      Keeps-ask (λ s. (s.hdus p.dest).file) (λ file. file ≡ p.dest_file) _ (λ s (_, h). h.in_file)
        λ file e.
          Keeps-ask (fptr file) (λ q. q ≡ p.g) _ (λ s (_, h). rw e h.pointer)
            λ q e'.
              search (keeps_rules, num_source_rows, num_dest_rows, insert_rows-Linked) depth 12

  pub extend_rows-Linked : (how : ℕ) → KeepsLinked (extend_rows p.src p.dest how)
  unfolding extend_rows
  extend_rows-Linked how =
      search (append-Linked, keeps_rules, num_source_rows, num_dest_rows) depth 14

  pub refresh-Linked : KeepsLinked (refresh p.dest)
  refresh-Linked = refresh-Keeps watch_dest
