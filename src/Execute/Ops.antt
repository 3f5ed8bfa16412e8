-- ===== src/Execute/Ops.antt =====
-- The operations for which the switch of execute.c has a case of its own.
use clojit_cvm.Common.{ℕ, ◌==◌, if◌then◌else◌}

pub data Op : Type 0 where
  cstr ckey ctype cbool cnil cshort nsset nsget addvv subvv mulvv divvv modvv iseq mov jump jumpf
        jumpt call ret fnew loop bulkmov alloc setfield getfield exit skip :
      Op

-- The numbers of execute.h. A case that only steps on is `skip`, and so is the default.
unfoldable pub op_of : ℕ → Op
op_of n =
    if n == 0
    then cstr
    else if n == 1
    then ckey
    else if n == 4
    then ctype
    else if n == 5
    then cbool
    else if n == 6
    then cnil
    else if n == 7
    then cshort
    else if n == 9
    then nsset
    else if n == 10
    then nsget
    else if n == 11
    then addvv
    else if n == 12
    then subvv
    else if n == 13
    then mulvv
    else if n == 14
    then divvv
    else if n == 16
    then modvv
    else if n == 21
    then iseq
    else if n == 23
    then mov
    else if n == 26
    then jump
    else if n == 27
    then jumpf
    else if n == 28
    then jumpt
    else if n == 29
    then call
    else if n == 30
    then ret
    else if n == 32
    then fnew
    else if n == 36
    then loop
    else if n == 37
    then bulkmov
    else if n == 43
    then alloc
    else if n == 44
    then setfield
    else if n == 45
    then getfield
    else if n == 47
    then exit
    else skip
