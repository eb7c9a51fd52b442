-- ===== src/Store/Page/Added.antt =====
-- ircStore.svelte.ts, `prependMessages`: the rows that a page adds.
use Prim.Native.String.{String}
use ircfiber_site.Store.Page.{Known}
use ircfiber_site.Store.Page.Distinct.{Sub, SubText}

-- What is known with k is known with l.
abbrev Grows : Known → Known → Type 0
Grows k l = Sub k.eids l.eids × SubText k.msgids l.msgids
