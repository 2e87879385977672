-- ===== src/Batch/Sectioned.antt =====
-- The section and the asserts of an item, once written.
use loobric_server.Base.{
  ℕ, zero, suc, ◌≡◌, ◌≢◌, refl, ap, ◌∙◌, subst, String, Bool, true, false, ◌&&◌, some, List, [],
  ◌∷◌, All, inl, inr, find?, str_eq, str_eq_iff, opt_eq, Bool-cases, Option-cases, arith,
}
use loobric_server.Base.Dict.{lookup, insert, string_eq, lookup-insert}
use loobric_server.Base.Exec.{ok, pure, gets, modify, ◌>>=◌}
use loobric_server.Contract.{ClientSection}
use loobric_server.Store.{Session, constraints_hold}
use loobric_server.Store.Frame.{audit_ok, audited}
use loobric_server.Store.Rows.{InstanceRow}
use loobric_server.Binding.Bridge.Frame.{IsFramed}
use loobric_server.Presets.{Texts}
use loobric_server.Instances.{AssertEntry, instance_entity, update_instance, with_canonical}
use loobric_server.Instances.Asserts.{IsTaken}
use loobric_server.Batch.Asserted.{IsApart, Stand, IsRun, assert_from-IsRun}
use loobric_server.Batch.{
  BatchItem, BatchRequest, Work, lift, write_section, refresh_section, replace_section,
  with_section, refreshed, new_section,
}
use loobric_server.Batch.Item.{apply_asserts}
use loobric_server.Batch.Idle.{IsWritten, IsHeld, opt_eq-eq, updated-IsHeld}

module _ (py : Texts) (user : String) (named : user ≢ "") (req : BatchRequest) (actor : String)
    (item : BatchItem) (taken : All (λ (e : AssertEntry). IsTaken e.what) item.asserts)
    (bare : item.presets ≡ []) where
  module _ (row : InstanceRow) (filled : row.id ≢ "") where
    -- After the section's write: the row with it, and the same document.
    pub record IsSectioned (s : Session) : Type 0 where
      pub changed : Bool
      pub after : Session
      pub held_row : InstanceRow
      pub run : write_section user req item row s ≡ (ok changed, after)
      pub held : IsHeld user row.id held_row after
      pub section : IsWritten req item held_row
      pub document : held_row.canonical ≡ row.canonical

    lookup_own :
        (sec : ClientSection) → lookup req.client (insert req.client sec row.clients) ≡ some sec
    lookup_own sec =
        lookup-insert req.client req.client sec row.clients
        ∙ rw ((str_eq_iff req.client req.client).1 refl) refl

    replaced :
        (s : Session) (created_at : ℕ)
        → IsHeld user row.id row s
        → (after : Session) × (replace_section user req item row created_at s ≡ (ok true, after))
          × IsHeld user row.id
              (with_section req.client (new_section req item created_at s.now) row)
              after
    unfolding replace_section gets modify pure ◌>>=◌ constraints_hold
    replaced s created_at h =
        let sec = new_section req item created_at s.now in
        let t = (update_instance row.id (with_section req.client sec) s).1 in
        let k =
          updated-IsHeld user row.id row s (with_section req.client sec) (λ r. (refl, refl)) h in
        (
          audited user "SYNC" instance_entity row.id t,
          rw
              (audit_ok user "SYNC" instance_entity row.id t named (λ q. cc q) (λ q. cc q) filled
                h.sound.holds)
              refl,
          record {
            found = k.found;
            mine = k.mine;
            same_id = refl;
            sound = record { holds = k.sound.holds; ids = k.sound.ids };
          },
        )

    pub write_section-IsSectioned : (s : Session) → IsHeld user row.id row s → IsSectioned s
    unfolding write_section refresh_section modify pure gets ◌>>=◌
    write_section-IsSectioned s h = elim (Option-cases (lookup req.client row.clients)) [
      | inl none_yet ↦
          let (after, run, k) = replaced s s.now h in
          record {
            changed = true;
            after = after;
            held_row = with_section req.client (new_section req item s.now s.now) row;
            run = rw none_yet run;
            held = k;
            section = record {
              section = _;
              there = lookup_own _;
              text = refl;
              release = refl;
              item_id = refl;
            };
            document = refl;
          }
      | inr (sec, there) ↦ elim (Bool-cases (str_eq sec.data_text item.data_text)) [
        | inl same ↦
            elim (Bool-cases (
              str_eq sec.client_version req.client_version
              && opt_eq sec.client_item_id item.client_item_id)) [
                | inl fresh ↦ record {
                  changed = false;
                  after = s;
                  held_row = row;
                  run = rw (there, same, fresh) refl;
                  held = h;
                  section = record {
                    section = sec;
                    there = there;
                    text = (str_eq_iff sec.data_text item.data_text).0 same;
                    release = (str_eq_iff sec.client_version req.client_version).0 (ground arith);
                    item_id = opt_eq-eq sec.client_item_id item.client_item_id (ground arith);
                  };
                  document = refl;
                }
                | inr stale ↦ record {
                  changed = false;
                  after =
                      (update_instance row.id (with_section req.client (refreshed req item sec))
                        s).1;
                  held_row = with_section req.client (refreshed req item sec) row;
                  run = rw (there, same, stale) refl;
                  held =
                      updated-IsHeld user row.id row s
                        (with_section req.client (refreshed req item sec)) (λ r. (refl, refl)) h;
                  section = record {
                    section = refreshed req item sec;
                    there = lookup_own (refreshed req item sec);
                    text = (str_eq_iff sec.data_text item.data_text).0 same;
                    release = refl;
                    item_id = refl;
                  };
                  document = refl;
                }
              ]
        | inr other ↦
            let (after, run, k) = replaced s sec.created_at h in
            record {
              changed = true;
              after = after;
              held_row = with_section req.client (new_section req item sec.created_at s.now) row;
              run = rw (there, other) run;
              held = k;
              section = record {
                section = _;
                there = lookup_own _;
                text = refl;
                release = refl;
                item_id = refl;
              };
              document = refl;
            }
      ]
    ]

  framed-IsHeld :
      (id : String) (row : InstanceRow) (s s' : Session)
      → IsFramed s.db s.uuid s'
      → IsHeld user id row s
      → IsHeld user id row s'
  framed-IsHeld id row s s' fr h = record {
    found = ap (find? (λ r. str_eq r.id id)) fr.instances_eq ∙ h.found;
    mine = h.mine;
    same_id = h.same_id;
    sound = fr.sound;
  }

  -- After the asserts: the row with all of them, and the sections that it had.
  pub record IsAsserted (row : InstanceRow) (es : List AssertEntry) (w : Work) : Type 0 where
    pub applied : ℕ
    pub after : Work
    pub held_row : InstanceRow
    pub run : apply_asserts user row actor true es w ≡ (ok applied, after)
    pub held : IsHeld user row.id held_row after.session
    pub stands : Stand held_row.canonical actor es
    pub sections : held_row.clients ≡ row.clients

  pub apply_asserts-IsAsserted :
      (row : InstanceRow) (es : List AssertEntry) (w : Work)
      → row.id ≢ ""
      → All (λ (e : AssertEntry). IsTaken e.what) es
      → IsApart es
      → IsHeld user row.id row w.session
      → IsAsserted row es w
  unfolding apply_asserts pure lift modify ◌>>=◌
  apply_asserts-IsAsserted row [] w filled t a h = record {
    applied = 0;
    after = w;
    held_row = row;
    run = refl;
    held = h;
    stands = tt;
    sections = refl;
  }
  apply_asserts-IsAsserted row (e ∷ es) w filled t a h = go r.count refl
    where
      r : IsRun user named row.id filled actor (e ∷ es) row.canonical 0 w.session
      r =
          assert_from-IsRun user named row.id filled actor (e ∷ es) row.canonical 0 w.session t a
            h.sound

      k : IsHeld user row.id row r.after
      k = framed-IsHeld row.id row w.session r.after r.frame h

      go : (n : ℕ) → r.count ≡ n → IsAsserted row (e ∷ es) w
      go zero z = record {
        applied = 0;
        after = record w { session = r.after; out = record w.out { asserts_applied = 0 } };
        held_row = row;
        run = rw (r.run, z) refl;
        held = k;
        stands = subst (λ c. Stand c actor (e ∷ es)) (r.same z) r.stands;
        sections = refl;
      }
      go (suc n) z = record {
        applied = suc n;
        after = record w {
          session = (update_instance row.id (with_canonical r.doc) r.after).1;
          out = record w.out { asserts_applied = suc n };
        };
        held_row = with_canonical r.doc row;
        run = rw (r.run, z) refl;
        held = updated-IsHeld user row.id row r.after (with_canonical r.doc) (λ x. (refl, refl)) k;
        stands = r.stands;
        sections = refl;
      }
