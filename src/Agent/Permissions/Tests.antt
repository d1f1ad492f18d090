-- ===== src/Agent/Permissions/Tests.antt =====
-- Names of permissions as a policy file spells them.
use cdk.Prelude.{◌≡◌, ◌≢◌, refl, false, some, [], ◌∷◌, Text, any, text_eq}
use cdk.Prelude.Split.{codes}
use cdk.Capability.{requires_approval, perm_eq, read, write}
use cdk.Agent.Permissions.{unknown, word_of, parse_permissions, spec_words, all_rights}
use cdk.Agent.Permissions.Names.{parse_permissions-all}

abbrev spec : Text
spec = codes "approval,all,nonsense"

splits : spec_words spec ≡ codes "approval" ∷ (codes "all" ∷ (codes "nonsense" ∷ []))
unfolding spec_words
splits = refl

known : word_of (codes "approval") ≢ unknown
unfolding word_of text_eq
known e = cc

two_names : parse_permissions (codes "read,write") ≡ some (read ∷ (write ∷ []))
unfolding parse_permissions perm_eq text_eq
two_names = refl

parse_permissions-all_example :
    (parse_permissions spec ≡ some all_rights)
    × (any (perm_eq requires_approval) all_rights ≡ false)
parse_permissions-all_example =
    parse_permissions-all spec (codes "approval" ∷ []) (codes "nonsense" ∷ []) splits (known, tt)
