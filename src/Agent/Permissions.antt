-- ===== src/Agent/Permissions.antt =====
-- src/agent.rs: the names of permissions, read by parse_permissions and written by permission_names.
pub mod Names
mod Tests
use cdk.Prelude.{
  ℕ, zero, suc, ◌+◌, ◌^◌, Bool, true, false, not, ◌&&◌, Option, none, some, List, [], ◌∷◌, ◌++◌,
  Text, any, filter, map, bit_and, bit_or, ◌==◌, if◌then◌else◌, text_eq,
}
use cdk.Prelude.Split.{codes, split, is_nonempty}
use cdk.Capability.{
  Permission, read, write, execute, send_message, receive_message, delete, requires_approval, tag,
  perm_eq,
}
use cdk.Agent.{all_permissions}

-- What a word names.
pub data Word : Type 0 where
  one : Permission → Word
  every : Word
  unknown : Word

unfoldable pub word_of : Text → Word
unfolding text_eq
word_of w =
    if text_eq w (codes "read")
    then one read
    else (if text_eq w (codes "write")
        then one write
        else (if text_eq w (codes "exec")
            then one execute
            else (if text_eq w (codes "send")
                then one send_message
                else (if text_eq w (codes "recv")
                    then one receive_message
                    else (if text_eq w (codes "delete")
                        then one delete
                        else (if text_eq w (codes "approval")
                            then one requires_approval
                            else (if text_eq w (codes "all") then every else unknown)))))))

-- The permissions that `all` stands for: every one but the approval constraint.
abbrev pub all_rights : List Permission
all_rights = filter (λ p. not (perm_eq p requires_approval)) all_permissions

-- The loop over the words, with the permissions that were read.
unfoldable pub parse_words : List Permission → List Word → Option (List Permission)
parse_words [] [] = none
parse_words (p ∷ out) [] = some (p ∷ out)
parse_words out (unknown ∷ ws) = none
parse_words out (every ∷ ws) = some all_rights
parse_words out (one p ∷ ws) = parse_words (if any (perm_eq p) out then out else out ++ (p ∷ [])) ws

-- `split(',')` and the words that are not empty.
unfoldable pub spec_words : Text → List Text
unfolding split
spec_words spec = filter is_nonempty (split (λ c. c == b',') spec)

unfoldable pub parse_permissions : Text → Option (List Permission)
unfolding parse_words word_of spec_words
parse_permissions spec = parse_words [] (map word_of (spec_words spec))

abbrev pub name : Permission → Text
name read = codes "read"
name write = codes "write"
name execute = codes "exec"
name send_message = codes "send"
name receive_message = codes "recv"
name delete = codes "delete"
name requires_approval = codes "approval"

-- 1u64 << p.tag()
abbrev pub perm_bit : Permission → ℕ
perm_bit p = 2 ^ tag p

-- The loop of `permission_names` over the permissions; the 48 bytes of the string are enough.
unfoldable pub names_from : ℕ → Text → List Permission → Text
unfolding tag
names_from mask s [] = s
names_from mask s (p ∷ ps) =
    names_from mask
      (if not (bit_and mask (perm_bit p) == 0)
        then (if is_nonempty s then s ++ (b',' ∷ name p) else name p)
        else s)
      ps

unfoldable pub permission_names : ℕ → Text
unfolding names_from
permission_names mask = names_from mask [] all_permissions

-- The fold of `policy.rs` over the permissions of a trust rule.
abbrev pub mask_of : ℕ → List Permission → ℕ
mask_of m [] = m
mask_of m (p ∷ ps) = mask_of (bit_or m (perm_bit p)) ps
