-- ===== src/Entries/InstallOnce.antt =====
-- The properties of `bind_instance` for an instance that the request names.
use loobric_server.Base.{◌≡◌, refl, String, false, ◌&&◌, some, find?-In, arith, str_eq, str_eq_iff}
use loobric_server.Base.Exec.{err, conflict, ◌>>=◌}
use loobric_server.Store.{Session}
use loobric_server.Store.Rows.{EntryRow}
use loobric_server.Entries.{BindRequest, owned, elsewhere, vacate, bind_target, bind_instance}

-- Without `move`, an instance that another entry of the user holds is refused with a 409, and the
-- request changes nothing.
pub bind_instance-conflict :
    (user record_id instance_id : String) (req : BindRequest) (s : Session) (row e : EntryRow)
    → req.instance_id ≡ some instance_id
    → req.move ≡ false
    → owned s.db user record_id ≡ some row
    → elsewhere s.db user record_id instance_id ≡ some e
    → bind_instance user record_id req s ≡ (err conflict, s)
unfolding bind_instance bind_target vacate owned ◌>>=◌
bind_instance-conflict user record_id instance_id req s row e asked stay found other =
    let (i, t) =
      find?-In (λ r. str_eq r.id record_id && str_eq r.user_id user) row s.db.entries found in
    let same : row.id ≡ record_id = ground (arith, str_eq_iff row.id record_id) in
    rw (found, asked, same, other, stay) refl
