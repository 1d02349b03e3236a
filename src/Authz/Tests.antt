-- ===== src/Authz/Tests.antt =====
-- A check of a user on an object.
use harbor_shield.Prelude.{codes}
use harbor_shield.Db.Triples.{Reads, Always}
use harbor_shield.Authz.{policy_service, check_subject}
use harbor_shield.Authz.Guard.{IsAnswer, check_subject-Reads}

check_subject-Reads_example :
    Reads Always
      (λ t a.
        IsAnswer t (codes "user") (codes "7") (codes "admin") (codes "object.get") (codes "b/x") a)
      (check_subject policy_service
        (codes "user")
        (codes "7")
        (codes "admin")
        (codes "object.get")
        (codes "b/x"))
check_subject-Reads_example =
    check_subject-Reads (codes "user") (codes "7") (codes "admin") (codes "object.get")
      (codes "b/x")
