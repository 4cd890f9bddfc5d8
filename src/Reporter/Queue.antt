-- ===== src/Reporter/Queue.antt =====
-- The list of reports that the reporter thread goes through: `reporter_process_report` and `reporter_spawn` of
-- iperf2-code/src/Reporter.c. The loop over the packets of a transfer is in module Ring; here it is a function on the state
-- of the transfer, which says whether the agent is done.
pub mod Refines
use flexfcapf.Prelude.{
  ℕ, ◌==◌, Bool, true, false, ◌&&◌, Option, none, some, List, [], ◌∷◌, ◌++◌, if◌then◌else◌,
}
use flexfcapf.Prelude.Bits.{has_bit, clear_bit}
use flexfcapf.Settings.{is_multiple_report}

-- What `reporter_print` is called for, with the object whose report it is.
pub data Print : Type 0 where
  settings_report connection_report relay_report sum_connection_report : ℕ → Print

-- A `ReportHeader` in the list: its number, the mask `type`, the flags, the header of its group and the transfer.
pub record Job (T : Type 0) : Type 0 where
  pub name : ℕ
  pub kind : ℕ
  pub flags : ℕ
  pub group : Option ℕ
  pub transfer : T

-- The masks `type` of the groups' reports, and what has been printed.
pub record Desk : Type 0 where
  pub group_kind : ℕ → ℕ
  pub out : List Print

abbrev pub put : Print → Desk → Desk
put p w = record w { out = w.out ++ (p ∷ []) }

abbrev pub update : (ℕ → ℕ) → ℕ → ℕ → ℕ → ℕ
update f i v j = if i == j then v else f j

-- The connection report of a group, which the first of its reports prints.
unfoldable pub print_group : Option ℕ → Desk → Desk
print_group none w = w
print_group (some g) w =
    if has_bit (w.group_kind g) 3
    then put (sum_connection_report g)
        (record w { group_kind = update w.group_kind g (clear_bit (w.group_kind g) 3) })
    else w

-- A report after its turn, whether it is to be freed, and the desk.
pub record Turn (T : Type 0) : Type 0 where
  pub job : Job T
  pub need_free : Bool
  pub desk : Desk

module _ {T : Type 0} (packets : T → T × Bool) where
  -- `if ( (reporthdr->report.type & TRANSFER_REPORT) != 0 )`
  unfoldable pub process_transfer : Job T → Desk → Turn T
  process_transfer x w =
      let (t, done) = packets x.transfer in
      if has_bit x.kind 0
      then record { job = record x { transfer = t }; need_free = done; desk = w }
      else record { job = x; need_free = false; desk = w }

  -- `reporter_process_report` without its recursive call.
  unfoldable pub process_one : Job T → Desk → Turn T
  unfolding process_transfer print_group
  process_one x w =
      let told = put (connection_report x.name) w in
      if has_bit x.kind 2
      then record {
        job = record x { kind = clear_bit x.kind 2 };
        need_free = true;
        desk = put (settings_report x.name) w;
      }
      else if has_bit x.kind 3
      then process_transfer (record x { kind = clear_bit x.kind 3 })
          (if is_multiple_report x.flags then print_group x.group told else told)
      else if has_bit x.kind 1
      then record {
        job = record x { kind = clear_bit x.kind 1 };
        need_free = true;
        desk = put (relay_report x.name) w;
      }
      else process_transfer x w

  -- `reporthdr->next = reporthdr->next->next`
  abbrev pub drop_next : Bool → List (Job T) → List (Job T)
  drop_next need_free [] = []
  drop_next need_free (y ∷ ys) = if need_free then ys else y ∷ ys

  -- `reporter_process_report`: the list from the report on, whether the first is to be freed, and the desk.
  unfoldable pub process_report : List (Job T) → Desk → List (Job T) × Bool × Desk
  unfolding process_one
  process_report [] w = ([], false, w)
  process_report (x ∷ xs) w =
      let (rest, next_free, w') = process_report xs w in
      let turn = process_one x w' in
      (turn.job ∷ drop_next next_free rest, turn.need_free, turn.desk)

  -- The report that was first is taken out of the list, behind those that have been added since.
  unfoldable pub unlink : List (Job T) → List (Job T) → List (Job T)
  unlink [] [] = []
  unlink [] (temp ∷ rest) = rest
  unlink (n ∷ ns) rest = n ∷ unlink ns rest

  -- One round of `reporter_spawn`, in which `added` come into the list.
  unfoldable pub spawn_round : List (Job T) → List (Job T) → Desk → List (Job T) × Desk
  unfolding process_report unlink
  spawn_round added root w =
      let (rest, need_free, w') = process_report root w in
      (if need_free then unlink added rest else added ++ rest, w')
