-- ===== src/Pages/Proxies/Message.antt =====
-- dashboard/src/pages/ProxiesPage.tsx: the message on what part of the list is shown.
use proxy_pool_architect.Base.{◌+◌, Option, none, some, [], ◌∷◌, length, nat_beq, if◌then◌else◌}
use proxy_pool_architect.Base.Text.{Text, codes}
use proxy_pool_architect.Types.Records.{ProxyListResponse}
use proxy_pool_architect.Format.{format_number}
use proxy_pool_architect.I18n.{Language, text, translate}

unfoldable pub build_list_message : Language → Option ProxyListResponse → Text
unfolding translate format_number
build_list_message language none = translate language (codes "proxies.zeroCount") none
build_list_message language (some response) =
    if nat_beq response.total 0
    then translate language (codes "proxies.zeroCount") none
    else translate language (codes "proxies.listRange") (
        some (
          (codes "start", text (format_number (response.offset + 1)))
          ∷ (codes "end", text (format_number (response.offset + length response.items)))
          ∷ (codes "total", text (format_number response.total))
          ∷ []))
