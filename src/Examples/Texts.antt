-- ===== src/Examples/Texts.antt =====
-- Formats, routes and translations of dashboard/src at concrete texts.
use proxy_pool_architect.Base.{◌≡◌, refl, none, some, []}
use proxy_pool_architect.Base.Text.{codes}
use proxy_pool_architect.Format.{format_number}
use proxy_pool_architect.I18n.{en, zh_cn, resources, interpolate}
use proxy_pool_architect.Pages.Markdown.{replace_all, escape_html}
use proxy_pool_architect.I18n.Entries.{lookup}
use proxy_pool_architect.I18n.Bundles.{Fits, resources-Fits}
use proxy_pool_architect.I18n.Interpolation.{interpolate-nil}

format_number_run : format_number 1234567 ≡ codes "1,234,567"
unfolding format_number
format_number_run = refl

resources-Fits_example :
    Fits
      (lookup (codes "nav.overview") (resources en))
      (lookup (codes "nav.overview") (resources zh_cn))
resources-Fits_example = resources-Fits (codes "nav.overview")

interpolate_nothing_run :
    (interpolate (codes "Page {page}") (some []) ≡ codes "Page {page}")
    × (interpolate (codes "Page {page}") none ≡ codes "Page {page}")
interpolate_nothing_run = interpolate-nil (codes "Page {page}")

escape_html_run : escape_html (codes "a<b") ≡ codes "a&lt;b"
unfolding escape_html replace_all
escape_html_run = refl
