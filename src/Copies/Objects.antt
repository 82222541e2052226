-- ===== src/Copies/Objects.antt =====
-- `DeepCopyObject` of the custom resources and their lists.
use sftpgo_operator.Base.{ℕ, refl}
use sftpgo_operator.Api.Meta.{Kinds}
use sftpgo_operator.Copies.Memory.{Ref, addresses_at, deep_copy_object}
use sftpgo_operator.Copies.Foreign.{Foreign, IsForeignDeep}
use sftpgo_operator.Copies.Separate.{Below, IsSeparate, deep_copy_object-IsSeparate}
use sftpgo_operator.Copies.Server.Types.{SftpGoServer, SftpGoServerList}
use sftpgo_operator.Copies.Server.Methods.{sftp_go_server, sftp_go_server_list}
use sftpgo_operator.Copies.Server.Laws.{sftp_go_server-IsDeep, sftp_go_server_list-IsDeep}
use sftpgo_operator.Copies.User.Types.{SftpGoUser, SftpGoUserList}
use sftpgo_operator.Copies.User.Methods.{sftp_go_user, sftp_go_user_list}
use sftpgo_operator.Copies.User.Laws.{sftp_go_user-IsDeep, sftp_go_user_list-IsDeep}

-- In each theorem the types of other packages are copied deeply by their own methods, and `n` is
-- the first address that is not in use.
module _ {K : Kinds} (F : Foreign K) (laws : IsForeignDeep F) (n : ℕ) where
  -- Where the types of other packages are copied deeply by their own methods, and `n` is the first
  -- address not in use: the copy of a server has its value, refers to no address twice, and to none
  -- that the server refers to.
  pub sftp_go_server-deep_copy_object :
      (p : Ref (SftpGoServer F))
      → Below n (addresses_at (sftp_go_server F).addresses p)
      → IsSeparate (sftp_go_server F) p (deep_copy_object (sftp_go_server F) p n).0
  sftp_go_server-deep_copy_object p below =
      deep_copy_object-IsSeparate (sftp_go_server F) (sftp_go_server-IsDeep F laws) p n refl below

  -- Where the types of other packages are copied deeply by their own methods, and `n` is the first
  -- address not in use: the copy of a list of servers has its value, refers to no address twice, and
  -- to none that the list and its servers refer to.
  pub sftp_go_server_list-deep_copy_object :
      (p : Ref (SftpGoServerList F))
      → Below n (addresses_at (sftp_go_server_list F).addresses p)
      → IsSeparate (sftp_go_server_list F) p (deep_copy_object (sftp_go_server_list F) p n).0
  sftp_go_server_list-deep_copy_object p below =
      deep_copy_object-IsSeparate (sftp_go_server_list F) (sftp_go_server_list-IsDeep F laws) p n
        refl below

  -- Where the types of other packages are copied deeply by their own methods, and `n` is the first
  -- address not in use: the copy of a user has its value, refers to no address twice, and to none
  -- that the user refers to.
  pub sftp_go_user-deep_copy_object :
      (p : Ref (SftpGoUser F))
      → Below n (addresses_at (sftp_go_user F).addresses p)
      → IsSeparate (sftp_go_user F) p (deep_copy_object (sftp_go_user F) p n).0
  sftp_go_user-deep_copy_object p below =
      deep_copy_object-IsSeparate (sftp_go_user F) (sftp_go_user-IsDeep F laws) p n refl below

  -- Where the types of other packages are copied deeply by their own methods, and `n` is the first
  -- address not in use: the copy of a list of users has its value, refers to no address twice, and
  -- to none that the list and its users refer to.
  pub sftp_go_user_list-deep_copy_object :
      (p : Ref (SftpGoUserList F))
      → Below n (addresses_at (sftp_go_user_list F).addresses p)
      → IsSeparate (sftp_go_user_list F) p (deep_copy_object (sftp_go_user_list F) p n).0
  sftp_go_user_list-deep_copy_object p below =
      deep_copy_object-IsSeparate (sftp_go_user_list F) (sftp_go_user_list-IsDeep F laws) p n refl
        below
