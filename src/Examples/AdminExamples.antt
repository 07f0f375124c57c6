-- ===== src/Examples/AdminExamples.antt =====
-- The accounts of administrators on concrete rows.
use nest_id_p.Base.{◌≤◌, true, [], ◌∷◌, arith, length}
use nest_id_p.Base.Eq.{nat_eq, string_eq}
use nest_id_p.Identity.Data.{Fresh}
use nest_id_p.AdminUsers.{Actor, Admins, delete_request, create_request, serve_all}
use nest_id_p.AdminUsers.Last.{serve_all-some}

abbrev root : Actor
root = record { id = "r"; username = "root" }

abbrev other : Actor
other = record { id = "o"; username = "other" }

abbrev admins : Admins
admins = record {
  rows = record { id = "r"; username = "root"; password_hash = "h"; created_at = 0 } ∷ [];
  lockouts = [];
  audit = [];
  next_id = 1;
}

abbrev fresh : Fresh
fresh = record { id_of = λ n. "n"; time_of = λ n. n }

serve_all-some_example :
    1
    ≤ length
        (serve_all
          (λ s. s)
          (λ s. true)
          (λ s. s)
          fresh
          (create_request "eve" "secret" root
            ∷ delete_request "r" other
            ∷ delete_request "n" other
            ∷ [])
          admins).rows
serve_all-some_example =
    serve_all-some (λ s. s) (λ s. true) (λ s. s) fresh
      (create_request "eve" "secret" root
        ∷ delete_request "r" other
        ∷ delete_request "n" other
        ∷ [])
      admins (omega arith)
